-- ===== src/Tests/Buffers.antt =====
-- Errors that are recorded while one is asked for.
use shadowsocks_ohos.Prelude.{refl, codes}
use shadowsocks_ohos.Ffi.State.{to_c_string, has_nul}
use shadowsocks_ohos.Ffi.Buffers.{
  last_error, handed_out, Memory, fill, cloned, handed, sets_last_error, clones, at_load,
  IsAccessed, at_first, then_access,
}
use shadowsocks_ohos.Ffi.Buffers.Pointer.{Without, here, later, Has, handed_out-Has}

-- An error at address 1.
abbrev recorded : Memory
recorded = fill at_load last_error 1 (to_c_string (codes "no"))

recorded-IsAccessed : IsAccessed recorded
recorded-IsAccessed = then_access at_first (sets_last_error 1 (codes "no") refl)

-- Thread 0 has cloned it to address 2, when another is recorded at address 3 and address 1 is free again.
abbrev asked : Memory
asked = cloned 0 2 (codes "no") recorded

abbrev asked_since : Memory
asked_since = fill asked last_error 3 (to_c_string (codes "nor this"))

-- It has handed out its clone, when one more is recorded at address 1, and thread 1 clones that.
abbrev told : Memory
told = fill (handed 0 asked_since) last_error 1 (to_c_string (codes "gone"))

told_since : Without handed_out (handed 0 asked_since) (cloned 1 4 (codes "gone") told)
unfolding to_c_string has_nul
told_since =
    later (later here (sets_last_error 1 (codes "gone") refl) refl)
      (clones 1 4 {b = 1} {t = codes "gone"} refl refl refl refl) refl

handed_out-Has_example : Has handed_out 2 (codes "no") (cloned 1 4 (codes "gone") told)
unfolding to_c_string has_nul
handed_out-Has_example =
    handed_out-Has 0 2 {b = 1} recorded-IsAccessed (refl, refl) refl
      (later here (sets_last_error 3 (codes "nor this") refl) refl) told_since
