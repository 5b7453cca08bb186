-- ===== src/Obfs/Http/Message.antt =====
-- What `HttpObfs` of native/sslocal-ffi/src/obfs.rs sends first: the fake request.
use shadowsocks_ohos.Prelude.{
  ℕ, ◌%◌, ◌++◌, [], ◌∷◌, Bytes, Text, codes, length, ◌==◌, if◌then◌else◌,
}
use shadowsocks_ohos.Encode.{utf8, decimal}

-- What one request draws from `rand::rng()`, and the base64 crate's `URL_SAFE.encode`.
pub record Entropy : Type 0 where
  pub rand_bytes : Bytes
  pub ua_maj_word : ℕ
  pub ua_min_word : ℕ
  pub encode : Bytes → Bytes

abbrev pub crlf : Bytes
crlf = 13 ∷ 10 ∷ []

-- The `Host` header's value: the port is left out at 80.
unfoldable pub host_header : Text → ℕ → Bytes
host_header host port = if port == 80 then utf8 host else utf8 host ++ (b':' ∷ decimal port)

-- `build_http_request`.
unfoldable pub build_http_request : Entropy → Text → ℕ → Bytes → Bytes
build_http_request r host port body =
    let key = r.encode r.rand_bytes in
    let ua_maj = r.ua_maj_word % 54 in
    let ua_min = r.ua_min_word % 2 in
    codes "GET / HTTP/1.1"
    ++ (crlf
        ++ (codes "Host: "
            ++ (host_header host port
                ++ (crlf
                    ++ (codes "User-Agent: curl/7."
                        ++ (decimal ua_maj
                            ++ (codes "."
                                ++ (decimal ua_min
                                    ++ (crlf
                                        ++ (codes "Upgrade: websocket"
                                            ++ (crlf
                                                ++ (codes "Connection: Upgrade"
                                                    ++ (crlf
                                                        ++ (codes "Sec-WebSocket-Key: "
                                                            ++ (key
                                                            ++ (crlf
                                                            ++ (codes "Content-Length: "
                                                            ++ (decimal (length body)
                                                            ++ (crlf
                                                            ++ (crlf ++ body))))))))))))))))))))
