-- ===== src/Json/Laws.antt =====
-- Laws of objects.
use shadowsocks_ohos.Prelude.{◌≡◌, refl, none, some, Text, equal, equal_iff, if◌then◌else◌, arith}
use shadowsocks_ohos.Json.{Value, Fields, end, field, find, put, without}

pub find-put :
    (k j : Text) (v : Value) (fs : Fields)
    → find j (put k v fs) ≡ (if equal k j then some v else find j fs)
unfolding find put
find-put k j v end = refl
find-put k j v (field i w fs) =
    ground (arith, equal_iff k j, equal_iff i k, equal_iff i j, find-put k j v fs)

pub find-without :
    (k j : Text) (fs : Fields) → find j (without k fs) ≡ (if equal k j then none else find j fs)
unfolding find without
find-without k j end = ground arith
find-without k j (field i w fs) =
    ground (arith, equal_iff k j, equal_iff i k, equal_iff i j, find-without k j fs)
