-- ===== src/Mutex/Table.antt =====
-- The threads that are made: their numbers, and how many of a class count up and down.
use linux_interface_test.Base.{
  ℕ, zero, suc, ◌+◌, ◌-◌, ◌/◌, ◌≡◌, refl, arith, ltb, if◌then◌else◌, List, [], ◌∷◌, length,
  Bool-cases, inl, inr, ◌∙◌,
}
use native.Mathlib.Nat.{div-lt_iff_lt-mul}
use linux_interface_test.Mutex.{cnt_add, cnt_sub, ThreadInfo, cnt_type_of, create_class}

abbrev pub count_down : List ThreadInfo → ℕ
count_down [] = 0
count_down (t ∷ ts) = elim t.cnt_type [ cnt_add ↦ count_down ts | cnt_sub ↦ suc (count_down ts) ]

-- Thread numbers one after the other.
abbrev pub AllIds : ℕ → List ThreadInfo → Type 0
AllIds n [] = Unit {0}
AllIds n (t ∷ ts) = (t.thread_id ≡ n) × AllIds (n + 1) ts

cnt_type_of_lem :
    (thread_num loops : ℕ)
    → cnt_type_of thread_num loops ≡ (if ltb loops (thread_num / 2) then cnt_sub else cnt_add)
cnt_type_of_lem thread_num loops =
    ground (arith, div-lt_iff_lt-mul {k = loops + 1} {x = thread_num} {y = 2} (omega arith))

class_from :
    (class_ prio thread_num thread_cnt loops left : ℕ)
    → loops + left ≡ thread_num
    → let ts = create_class class_ prio thread_num thread_cnt loops left in
      (length ts ≡ left) × (count_down ts ≡ thread_num / 2 - loops) × AllIds thread_cnt ts
unfolding create_class
class_from class_ prio thread_num thread_cnt loops zero h = (refl, omega arith, tt)
class_from class_ prio thread_num thread_cnt loops (suc left) h =
    let (len, down, ids) =
      class_from class_ prio thread_num (thread_cnt + 1) (loops + 1) left (omega arith) in
    elim (Bool-cases (ltb loops (thread_num / 2))) [
      | inl early ↦
          let sub : cnt_type_of thread_num loops ≡ cnt_sub =
            cnt_type_of_lem thread_num loops ∙ rw early refl in
          (omega (arith, len), rw sub (ground (arith, down)), (refl, ids))
      | inr late ↦
          let add : cnt_type_of thread_num loops ≡ cnt_add =
            cnt_type_of_lem thread_num loops ∙ rw late refl in
          (omega (arith, len), rw add (ground (arith, down)), (refl, ids))
    ]

-- A class of `n` threads has `n / 2` that count down and `n - n / 2` that count up, so that its counter
-- is balanced exactly for even `n`; the numbers of its threads follow one another.
pub create_class_lem :
    (class_ prio n thread_cnt : ℕ)
    → let ts = create_class class_ prio n thread_cnt 0 n in
      (length ts ≡ n) × (count_down ts ≡ n / 2) × AllIds thread_cnt ts
create_class_lem class_ prio n thread_cnt =
    let (len, down, ids) = class_from class_ prio n thread_cnt 0 n (omega arith) in
    (len, omega (arith, down), ids)
