-- ===== src/NetHelper/Echo.antt =====
-- The client of native/sslocal-ffi/examples/net_helper.rs against the echo role.
use shadowsocks_ohos.Prelude.{
  ℕ, ◌≤◌, ◌<◌, ◌≡◌, refl, ap, ◌∙◌, true, List, [], ◌∷◌, ◌++◌, map, Text, Bytes, length, take,
  take_all, equal_iff, All, arith,
}
use shadowsocks_ohos.Encode.{utf8}
use shadowsocks_ohos.Io.{done}
use shadowsocks_ohos.NetHelper.{Socket, try_client, attempts, on_attempt, run_client}
use shadowsocks_ohos.NetHelper.Roles.{Round, echo_loop, echo_room, echo_thread}

unfoldable pub joined : List Bytes → Bytes
joined [] = []
joined (chunk ∷ chunks) = chunk ++ joined chunks

-- A chunk that a read may answer with: not empty, and no longer than the room.
abbrev pub IsChunk : Bytes → Type 0
IsChunk chunk = (0 < length chunk) × (length chunk ≤ echo_room)

-- A round that reads a chunk and can write.
abbrev pub hears : Bytes → Round
hears chunk = record { read = λ room. done chunk; write_all = λ bytes. done tt }

-- What a connection of the echo role writes back, when it has heard these chunks.
abbrev pub written_back : List Bytes → Bytes
written_back chunks = joined (echo_thread (done (map hears chunks))).written

echo_loop-hears :
    (chunks : List Bytes) → All IsChunk chunks → (echo_loop (map hears chunks)).written ≡ chunks
unfolding echo_loop
echo_loop-hears [] h = refl
echo_loop-hears ([] ∷ chunks) (h, hs) = absurd (omega arith)
echo_loop-hears ((b ∷ chunk) ∷ chunks) (h, hs) =
    ap (λ rest. (b ∷ chunk) ∷ rest) (echo_loop-hears chunks hs)

-- A network that takes the client to the echo role: by what was sent on it, a connection, which is
-- there at once, keeps its timeouts, sends all, cuts what is sent into chunks for the echo role, and
-- reads what the role has written back, once there is enough of it.
pub record ToEcho {Tcp : Type 0} (net : Socket Tcp) (target : Text) : Type 0 where
  pub stream : Bytes → Tcp
  pub cut : Bytes → List Bytes
  pub connects : net.connect target ≡ done (stream [])
  pub keeps_read_timeout :
      (sent : Bytes) (n : ℕ) → net.set_read_timeout n (stream sent) ≡ done (stream sent)
  pub keeps_write_timeout :
      (sent : Bytes) (n : ℕ) → net.set_write_timeout n (stream sent) ≡ done (stream sent)
  pub sends : (sent more : Bytes) → net.write_all more (stream sent) ≡ done (stream (sent ++ more))
  pub loses_nothing : (sent : Bytes) → joined (cut sent) ≡ sent
  pub cuts : (sent : Bytes) → All IsChunk (cut sent)
  pub brings_back :
      (sent : Bytes) (n : ℕ)
      → n ≤ length (written_back (cut sent))
      → net.read_exact n (stream sent) ≡ done (take n (written_back (cut sent)))

module _ {Tcp : Type 0} {net : Socket Tcp} {target : Text} (echo : ToEcho net target) where
  written_back-sent : (sent : Bytes) → written_back (echo.cut sent) ≡ sent
  unfolding echo_thread
  written_back-sent sent =
      ap joined (echo_loop-hears (echo.cut sent) (echo.cuts sent)) ∙ echo.loses_nothing sent

  reads_back : (sent : Bytes) → net.read_exact (length sent) (echo.stream sent) ≡ done sent
  reads_back sent =
      rw
        (
          echo.brings_back sent (length sent) (omega (arith, ap length (written_back-sent sent))),
          written_back-sent sent,
        )
        (ap done (take_all (length sent) sent (omega arith)))

  try_client-echo : (message : Text) → try_client net target message ≡ done true
  unfolding try_client
  try_client-echo message =
      rw
        (
          echo.connects,
          echo.keeps_read_timeout,
          echo.keeps_write_timeout,
          echo.sends,
          reads_back,
          (equal_iff (utf8 message) (utf8 message)).1 refl,
        )
        refl

-- A client that reaches the echo role, over a network that may cut what is sent in any way but loses
-- none of it, is answered right at its first attempt, whatever its message: it exits with 0 and
-- reports nothing.
pub run_client-echo :
    {Tcp : Type 0} {net : Socket Tcp} {target : Text}
    → ToEcho net target
    → (message : Text)
    → run_client (λ i. try_client net target message) ≡ record { reports = []; slept = 0; code = 0 }
unfolding run_client attempts on_attempt
run_client-echo echo message = rw (try_client-echo echo message) refl
