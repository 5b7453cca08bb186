-- ===== src/Obfs/Tls/Hello/Extensions.antt =====
-- The ClientHello that native/sslocal-ffi/src/obfs.rs builds ends in extensions that read back as what was put in.
use shadowsocks_ohos.Prelude.{
  ℕ, suc, ◌+◌, ◌<◌, ◌%◌, ◌^◌, ◌/◌, ◌≡◌, refl, sym, ap, ◌∙◌, List, [], ◌∷◌, ◌++◌, Option, some,
  Bytes, length, drop, length-append, take-append_exact, drop-append_exact, arith, append-nil,
  le→leb,
}
use shadowsocks_ohos.Encode.{be16, u16_mod, from_be16}
use shadowsocks_ohos.Obfs.Tls.{
  cipher_suites, ec_point_formats, supported_groups, signature_algorithms, encrypt_then_mac,
  extended_master_secret,
}
use shadowsocks_ohos.Obfs.Tls.Hello.{
  ◌>>=◌, cut, vector8, vector16, all_of, behind, extensions, extension, host_name, hello_tail,
}

pub cut-append : (n : ℕ) (v rest : Bytes) → length v ≡ n → cut n (v ++ rest) ≡ some (v, rest)
unfolding cut
cut-append n v rest e = rw (
  le→leb n (length (v ++ rest)) (omega (arith, length-append v rest)),
  take-append_exact n v rest e,
  drop-append_exact n v rest e,
)

vector16-be16 :
    (n : ℕ) (v rest : Bytes)
    → length v ≡ n
    → n < u16_mod
    → vector16 (be16 n ++ (v ++ rest)) ≡ some (v, rest)
unfolding vector16
vector16-be16 n v rest e h =
    cut-append (from_be16 (n / 2 ^ 8 % 2 ^ 8) (n % 2 ^ 8)) v rest (omega arith)

pub all_of-vector16 :
    (n : ℕ) (v : Bytes) → length v ≡ n → n < u16_mod → (vector16 (be16 n ++ v) >>= all_of) ≡ some v
unfolding all_of
all_of-vector16 n v e h =
    ap (λ w. vector16 (be16 n ++ w) >>= all_of) (sym (append-nil v))
    ∙ ap (λ o. o >>= all_of) (vector16-be16 n v [] e h)

abbrev pub last_extensions : Bytes
last_extensions =
    ec_point_formats
    ++ (supported_groups ++ (signature_algorithms ++ (encrypt_then_mac ++ extended_master_secret)))

abbrev pub sni_body : Bytes → Bytes
sni_body name = be16 (length name + 3) ++ (0x00 ∷ (be16 (length name) ++ name))

abbrev pub all_extensions : Bytes → Bytes → Bytes
all_extensions ticket name =
    0x00
    ∷ 0x23
    ∷ (be16 (length ticket)
        ++ (ticket
            ++ (0x00 ∷ 0x00 ∷ (be16 (length name + 5) ++ (sni_body name ++ last_extensions)))))

pub bind_some :
    {A B : Type 0} (m : Option A) (f : A → Option B) {a : A} {r : Option B}
    → m ≡ some a
    → f a ≡ r
    → (m >>= f) ≡ r
bind_some m f e h = ap (λ o. o >>= f) e ∙ h

host_name-sni_body :
    (name : Bytes) → length name + 3 < u16_mod → host_name (sni_body name) ≡ some name
unfolding host_name behind
host_name-sni_body name h =
    bind_some (vector16 (sni_body name) >>= all_of) _
      (all_of-vector16 (length name + 3) (0x00 ∷ (be16 (length name) ++ name)) (omega arith) h)
      (all_of-vector16 (length name) name refl (omega arith))

extensions-step :
    (n hi lo k : ℕ) (v rest : Bytes) {es : List (ℕ × Bytes)}
    → length v ≡ k
    → k < u16_mod
    → extensions n rest ≡ some es
    → extensions (suc n) (hi ∷ lo ∷ (be16 k ++ (v ++ rest))) ≡ some ((from_be16 hi lo, v) ∷ es)
unfolding extensions
extensions-step n hi lo k v rest e h later =
    bind_some (vector16 (be16 k ++ (v ++ rest))) _ (vector16-be16 k v rest e h)
      (bind_some (extensions n rest) _ later refl)

abbrev last_list : List (ℕ × Bytes)
last_list =
    (0x000b, drop 4 ec_point_formats)
    ∷ (0x000a, drop 4 supported_groups)
    ∷ (0x000d, drop 4 signature_algorithms)
    ∷ (0x0016, [])
    ∷ (0x0017, [])
    ∷ []

extensions-last : extensions 14 last_extensions ≡ some last_list
unfolding extensions vector16 cut
extensions-last = refl

extensions-all :
    (ticket name : Bytes)
    → length ticket < u16_mod
    → length name + 5 < u16_mod
    → extensions 16 (all_extensions ticket name)
      ≡ some ((0x0023, ticket) ∷ (0x0000, sni_body name) ∷ last_list)
extensions-all ticket name h k =
    extensions-step 15 0x00 0x23 (length ticket) ticket
      (0x00 ∷ 0x00 ∷ (be16 (length name + 5) ++ (sni_body name ++ last_extensions))) refl h
      (extensions-step 14 0x00 0x00 (length name + 5) (sni_body name) last_extensions (omega arith)
        k extensions-last)

-- What stands behind the random.
abbrev pub hello_end : Bytes → Bytes → Bytes → Bytes
hello_end session_id ticket name =
    32
    ∷ (session_id
        ++ (0x00
            ∷ 0x38
            ∷ (cipher_suites
                ++ (0x01
                    ∷ 0x00
                    ∷ (be16 (79 + length ticket + length name) ++ all_extensions ticket name)))))

pub length-all_extensions :
    (ticket name : Bytes) → length (all_extensions ticket name) ≡ 79 + length ticket + length name
length-all_extensions ticket name = omega (
  arith,
  length-append ticket
      (0x00 ∷ 0x00 ∷ (be16 (length name + 5) ++ (sni_body name ++ last_extensions))),
  length-append name last_extensions,
)

pub hello_tail-hello_end :
    (session_id ticket name : Bytes)
    → length session_id ≡ 32
    → 79 + length ticket + length name < u16_mod
    → hello_tail (hello_end session_id ticket name) ≡ some (ticket, name)
unfolding hello_tail vector8 extension
hello_tail-hello_end session_id ticket name e h =
    let tail = be16 (79 + length ticket + length name) ++ all_extensions ticket name in
    let suites = 0x00 ∷ 0x38 ∷ (cipher_suites ++ (0x01 ∷ 0x00 ∷ tail)) in
    bind_some (vector8 (hello_end session_id ticket name)) _ (cut-append 32 session_id suites e) (
      bind_some (vector16 suites) _
        (vector16-be16 56 cipher_suites (0x01 ∷ 0x00 ∷ tail) refl (omega arith))
        (bind_some (vector8 (0x01 ∷ 0x00 ∷ tail)) _ (cut-append 1 (0x00 ∷ []) tail refl) (
          bind_some (vector16 tail >>= all_of) _
            (all_of-vector16 (79 + length ticket + length name) (all_extensions ticket name)
              (length-all_extensions ticket name) h)
            (bind_some (extensions 16 (all_extensions ticket name)) _
              (extensions-all ticket name (omega arith) (omega arith))
              (bind_some (host_name (sni_body name)) _ (host_name-sni_body name (omega arith))
                refl)))))
