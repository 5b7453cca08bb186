-- ===== src/Obfs/Tls/Message.antt =====
-- What `TlsObfs` of native/sslocal-ffi/src/obfs.rs sends: the fake ClientHello, and records of data.
use shadowsocks_ohos.Prelude.{ℕ, ◌+◌, ◌%◌, ◌++◌, [], ◌∷◌, Bytes, Text, length}
use shadowsocks_ohos.Encode.{utf8, be16, be32, u16_mod}

-- What one ClientHello draws from `rand::rng()` and from the clock, in whole seconds.
pub record Entropy : Type 0 where
  pub random : Bytes
  pub session_id : Bytes
  pub now : ℕ

abbrev pub cipher_suites : Bytes
cipher_suites =
    0xc0 ∷ 0x2c ∷ 0xc0 ∷ 0x30 ∷ 0x00 ∷ 0x9f ∷ 0xcc ∷ 0xa9 ∷ 0xcc ∷ 0xa8 ∷ 0xcc ∷ 0xaa ∷ 0xc0 ∷ 0x2b
    ∷ 0xc0 ∷ 0x2f ∷ 0x00 ∷ 0x9e ∷ 0xc0 ∷ 0x24 ∷ 0xc0 ∷ 0x28 ∷ 0x00 ∷ 0x6b ∷ 0xc0 ∷ 0x23 ∷ 0xc0
    ∷ 0x27 ∷ 0x00 ∷ 0x67 ∷ 0xc0 ∷ 0x0a ∷ 0xc0 ∷ 0x14 ∷ 0x00 ∷ 0x39 ∷ 0xc0 ∷ 0x09 ∷ 0xc0 ∷ 0x13
    ∷ 0x00 ∷ 0x33 ∷ 0x00 ∷ 0x9d ∷ 0x00 ∷ 0x9c ∷ 0x00 ∷ 0x3d ∷ 0x00 ∷ 0x3c ∷ 0x00 ∷ 0x35 ∷ 0x00
    ∷ 0x2f ∷ 0x00 ∷ 0xff ∷ []

-- The extensions behind the two that carry something.
abbrev pub ec_point_formats : Bytes
ec_point_formats = 0x00 ∷ 0x0b ∷ 0x00 ∷ 0x04 ∷ 0x03 ∷ 0x01 ∷ 0x00 ∷ 0x02 ∷ []

abbrev pub supported_groups : Bytes
supported_groups =
    0x00 ∷ 0x0a ∷ 0x00 ∷ 0x0a ∷ 0x00 ∷ 0x08 ∷ 0x00 ∷ 0x1d ∷ 0x00 ∷ 0x17 ∷ 0x00 ∷ 0x19 ∷ 0x00 ∷ 0x18
    ∷ []

abbrev pub signature_algorithms : Bytes
signature_algorithms =
    0x00 ∷ 0x0d ∷ 0x00 ∷ 0x20 ∷ 0x00 ∷ 0x1e ∷ 0x06 ∷ 0x01 ∷ 0x06 ∷ 0x02 ∷ 0x06 ∷ 0x03 ∷ 0x05 ∷ 0x01
    ∷ 0x05 ∷ 0x02 ∷ 0x05 ∷ 0x03 ∷ 0x04 ∷ 0x01 ∷ 0x04 ∷ 0x02 ∷ 0x04 ∷ 0x03 ∷ 0x03 ∷ 0x01 ∷ 0x03
    ∷ 0x02 ∷ 0x03 ∷ 0x03 ∷ 0x02 ∷ 0x01 ∷ 0x02 ∷ 0x02 ∷ 0x02 ∷ 0x03 ∷ []

abbrev pub encrypt_then_mac : Bytes
encrypt_then_mac = 0x00 ∷ 0x16 ∷ 0x00 ∷ 0x00 ∷ []

abbrev pub extended_master_secret : Bytes
extended_master_secret = 0x00 ∷ 0x17 ∷ 0x00 ∷ 0x00 ∷ []

-- `base + data_len as u16 + server_len as u16`, which wraps at sixteen bits.
abbrev pub u16_sum : ℕ → ℕ → ℕ → ℕ
u16_sum base a b = (base + a % u16_mod + b % u16_mod) % u16_mod

-- `build_client_hello`.
unfoldable pub build_client_hello : Entropy → Bytes → Text → Bytes
build_client_hello r chunk server =
    let server_bytes = utf8 server in
    let data_len = length chunk in
    let server_len = length server_bytes in
    0x16
    ∷ 0x03
    ∷ 0x01
    ∷ (be16 (u16_sum 212 data_len server_len)
        ++ (0x01
            ∷ 0x00
            ∷ (be16 (u16_sum 208 data_len server_len)
                ++ (0x03
                    ∷ 0x03
                    ∷ (be32 r.now
                        ++ (r.random
                            ++ (32
                                ∷ (r.session_id
                                    ++ (0x00
                                        ∷ 0x38
                                        ∷ (cipher_suites
                                            ++ (0x01
                                                ∷ 0x00
                                                ∷ (be16 (u16_sum 79 data_len server_len)
                                                    ++ (0x00
                                                        ∷ 0x23
                                                        ∷ (be16 data_len
                                                            ++ (chunk
                                                            ++ (0x00
                                                            ∷ 0x00
                                                            ∷ (be16 (server_len % u16_mod + 5)
                                                            ++ (be16 (server_len % u16_mod + 3)
                                                            ++ (0x00
                                                            ∷ (be16 server_len
                                                            ++ (server_bytes
                                                            ++ (ec_point_formats
                                                            ++ (supported_groups
                                                            ++ (signature_algorithms
                                                            ++ (encrypt_then_mac
                                                            ++ extended_master_secret)))))))))))))))))))))))))

-- The application-data record that `poll_write` builds.
unfoldable pub framed : Bytes → Bytes
framed chunk = 0x17 ∷ 0x03 ∷ 0x03 ∷ (be16 (length chunk) ++ chunk)
