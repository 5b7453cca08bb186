-- ===== src/Obfs/Tls/Hello/RoundTrip.antt =====
-- The ClientHello that native/sslocal-ffi/src/obfs.rs builds reads back as what was put in.
use shadowsocks_ohos.Prelude.{
  ℕ, ◌+◌, ◌<◌, ◌%◌, ◌≡◌, refl, ◌∙◌, ◌∷◌, ◌++◌, some, Bytes, Text, length, length-append, arith,
}
use shadowsocks_ohos.Encode.{utf8, be16, be32, u16_mod}
use shadowsocks_ohos.Obfs.Tls.{Entropy, u16_sum, build_client_hello, cipher_suites}
use shadowsocks_ohos.Obfs.Tls.Hello.{◌>>=◌, cut, vector16, all_of, behind, read_client_hello}
use shadowsocks_ohos.Obfs.Tls.Hello.Extensions.{
  cut-append, all_of-vector16, bind_some, hello_tail-hello_end, length-all_extensions,
  last_extensions, hello_end, all_extensions,
}

-- The handshake message behind its length.
abbrev hello_body : Entropy → Bytes → Bytes → Bytes
hello_body r ticket name =
    0x03 ∷ 0x03 ∷ ((be32 r.now ++ r.random) ++ hello_end r.session_id ticket name)

abbrev hello_record : Entropy → Bytes → Bytes → Bytes
hello_record r ticket name =
    0x16
    ∷ 0x03
    ∷ 0x01
    ∷ (be16 (212 + length ticket + length name)
        ++ (0x01 ∷ 0x00 ∷ (be16 (208 + length ticket + length name) ++ hello_body r ticket name)))

-- The message with its five lengths left open.
hello_with : Entropy → Bytes → Bytes → ℕ → ℕ → ℕ → ℕ → ℕ → Bytes
hello_with r chunk name a b c d e =
    0x16
    ∷ 0x03
    ∷ 0x01
    ∷ (be16 a
        ++ (0x01
            ∷ 0x00
            ∷ (be16 b
                ++ (0x03
                    ∷ 0x03
                    ∷ ((be32 r.now ++ r.random)
                        ++ (32
                            ∷ (r.session_id
                                ++ (0x00
                                    ∷ 0x38
                                    ∷ (cipher_suites
                                        ++ (0x01
                                            ∷ 0x00
                                            ∷ (be16 c
                                                ++ (0x00
                                                    ∷ 0x23
                                                    ∷ (be16 (length chunk)
                                                        ++ (chunk
                                                            ++ (0x00
                                                            ∷ 0x00
                                                            ∷ (be16 d
                                                            ++ (be16 e
                                                            ++ (0x00
                                                            ∷ (be16 (length name)
                                                            ++ (name
                                                            ++ last_extensions))))))))))))))))))))

-- Where the lengths fit sixteen bits, no sum wraps.
build_client_hello-hello_record :
    (r : Entropy) (chunk : Bytes) (server : Text)
    → 212 + length chunk + length (utf8 server) < u16_mod
    → build_client_hello r chunk server ≡ hello_record r chunk (utf8 server)
build_client_hello-hello_record r chunk server h =
    let d = length chunk in
    let n = length (utf8 server) in
    opened
    ∙ rw
        (
          sum 212 (omega arith),
          sum 208 (omega arith),
          sum 79 (omega arith),
          plus 5 (omega arith),
          plus 3 (omega arith),
        )
        closed
  where
    sum :
        (base : ℕ)
        → base + length chunk + length (utf8 server) < u16_mod
        → u16_sum base (length chunk) (length (utf8 server))
          ≡ base + length chunk + length (utf8 server)
    sum base fits = omega arith

    plus :
        (k : ℕ)
        → 3 + length (utf8 server) < u16_mod
        → length (utf8 server) % u16_mod + k ≡ length (utf8 server) + k
    plus k fits = omega arith

    opened :
        build_client_hello r chunk server
        ≡ hello_with r chunk
            (utf8 server)
            (u16_sum 212 (length chunk) (length (utf8 server)))
            (u16_sum 208 (length chunk) (length (utf8 server)))
            (u16_sum 79 (length chunk) (length (utf8 server)))
            (length (utf8 server) % u16_mod + 5)
            (length (utf8 server) % u16_mod + 3)
    opened = unfold build_client_hello hello_with in refl

    closed :
        hello_with r chunk
          (utf8 server)
          (212 + length chunk + length (utf8 server))
          (208 + length chunk + length (utf8 server))
          (79 + length chunk + length (utf8 server))
          (length (utf8 server) + 5)
          (length (utf8 server) + 3)
        ≡ hello_record r chunk (utf8 server)
    closed = unfold hello_with in refl

length-hello_end :
    (session_id ticket name : Bytes)
    → length session_id ≡ 32
    → length (hello_end session_id ticket name) ≡ 174 + length ticket + length name
length-hello_end session_id ticket name e =
    let tail = be16 (79 + length ticket + length name) ++ all_extensions ticket name in
    let suites = 0x00 ∷ 0x38 ∷ (cipher_suites ++ (0x01 ∷ 0x00 ∷ tail)) in
    omega (arith, e, length-append session_id suites, length-all_extensions ticket name)

length-hello_body :
    (r : Entropy) (ticket name : Bytes)
    → length r.random ≡ 28
    → length r.session_id ≡ 32
    → length (hello_body r ticket name) ≡ 208 + length ticket + length name
length-hello_body r ticket name e k = omega (
  arith,
  e,
  length-append r.random (hello_end r.session_id ticket name),
  length-hello_end r.session_id ticket name k,
)

read_client_hello-hello_record :
    (r : Entropy) (ticket name : Bytes)
    → length r.random ≡ 28
    → length r.session_id ≡ 32
    → 212 + length ticket + length name < u16_mod
    → read_client_hello (hello_record r ticket name) ≡ some (ticket, name)
unfolding read_client_hello behind
read_client_hello-hello_record r ticket name e k h =
    let d = length ticket + length name in
    let body = hello_body r ticket name in
    let message = 0x01 ∷ 0x00 ∷ (be16 (208 + length ticket + length name) ++ body) in
    bind_some (vector16 (be16 (212 + length ticket + length name) ++ message) >>= all_of) _
      (all_of-vector16 (212 + length ticket + length name) message
        (omega (arith, length-hello_body r ticket name e k)) h)
      (bind_some (vector16 (be16 (208 + length ticket + length name) ++ body) >>= all_of) _
        (all_of-vector16 (208 + length ticket + length name) body
          (length-hello_body r ticket name e k) (omega arith))
        (bind_some (cut 32 ((be32 r.now ++ r.random) ++ hello_end r.session_id ticket name)) _
          (cut-append 32 (be32 r.now ++ r.random) (hello_end r.session_id ticket name)
            (omega (arith, e)))
          (hello_tail-hello_end r.session_id ticket name k (omega arith))))

-- A TLS server that reads the fake record finds one well-formed ClientHello, every length in it the
-- length of what it measures, with the payload as its session ticket and the server's name as its
-- SNI, if 28 and 32 random bytes were drawn and the record's length fits sixteen bits.
pub read_client_hello-build_client_hello :
    (r : Entropy) (chunk : Bytes) (server : Text)
    → length r.random ≡ 28
    → length r.session_id ≡ 32
    → 212 + length chunk + length (utf8 server) < u16_mod
    → (read_client_hello (build_client_hello r chunk server) ≡ some (chunk, utf8 server))
      × (length (build_client_hello r chunk server) ≡ 217 + length chunk + length (utf8 server))
read_client_hello-build_client_hello r chunk server e k h =
    rw (build_client_hello-hello_record r chunk server h) (
      read_client_hello-hello_record r chunk (utf8 server) e k h,
      omega (arith, length-hello_body r chunk (utf8 server) e k),
    )
