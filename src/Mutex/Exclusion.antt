-- ===== src/Mutex/Exclusion.antt =====
-- While the mutex works, one thread at a time is between its lock and its unlock, and no count is lost.
use linux_interface_test.Base.{
  ℕ, ◌+◌, ◌≡◌, refl, arith, ◌==◌, u32, none, some, false, Bool-cases, inl, inr, subst, ==_iff, ap,
  ◌∙◌, sym,
}
use linux_interface_test.Mutex.{
  CntType, cnt_add, cnt_sub, ThreadInfo, Pc, outside, inside, stored, loaded, count, update, System,
  bump, locked, load_cnt, store_cnt, unlocked, Step, lock, load, store, unlock, Steps, stay, next,
}

module _ (infos : ℕ → ThreadInfo) where
  -- A thread that is not outside owns the mutex, and the value it has loaded is still there.
  abbrev pub Owns : System → ℕ → Pc → Type 0
  Owns s t outside = Unit {0}
  Owns s t inside = s.owner ≡ some t
  Owns s t stored = s.owner ≡ some t
  Owns s t (loaded value) = (s.owner ≡ some t) × (value ≡ s.cnt_num (infos t).class_)

  pub record Exclusive (s : System) : Type 0 where
    pub owns : (t : ℕ) → Owns s t (s.pc t)
    pub sums : (c : ℕ) → u32 (s.cnt_num c + s.downs c) ≡ u32 (s.ups c)

  Owns-other :
      (s : System) (t u : ℕ) (p : Pc)
      → s.owner ≡ some t
      → (u == t) ≡ false
      → Owns s u p
      → p ≡ outside
  Owns-other s t u outside h differ o = refl
  Owns-other s t u inside h differ o = ground (arith, h, o)
  Owns-other s t u stored h differ o = ground (arith, h, o)
  Owns-other s t u (loaded value) h differ o = ground (arith, h, o.0)

  Owns-free : (s : System) (u : ℕ) (p : Pc) → s.owner ≡ none → Owns s u p → p ≡ outside
  Owns-free s u outside h o = refl
  Owns-free s u inside h o = ground (arith, h, o)
  Owns-free s u stored h o = ground (arith, h, o)
  Owns-free s u (loaded value) h o = ground (arith, h, o.0)

  -- One thread moves to `p` and all others are outside.
  Owns-update :
      (s : System) (pc : ℕ → Pc) (t : ℕ) (p : Pc)
      → Owns s t p
      → ((u : ℕ) → (u == t) ≡ false → pc u ≡ outside)
      → (u : ℕ) → Owns s u (update pc t p u)
  Owns-update s pc t p here others u = elim (Bool-cases (u == t)) [
    | inl same ↦ rw same (subst (λ u. Owns s u p) (sym ((==_iff u t).0 same)) here)
    | inr differ ↦ rw (differ, others u differ) tt
  ]

  sums_stored :
      (ty : CntType) (value ups downs : ℕ)
      → u32 (value + downs) ≡ u32 ups
      → u32 (count ty value + bump cnt_sub ty downs) ≡ u32 (bump cnt_add ty ups)
  sums_stored cnt_add value ups downs h = omega arith
  sums_stored cnt_sub value ups downs h = omega arith

  Step-Exclusive : (a b : System) → Step infos a b → Exclusive a → Exclusive b
  unfolding locked load_cnt store_cnt unlocked
  Step-Exclusive _ _ (lock t s h free) v = record {
    owns =
        Owns-update (locked t s) s.pc t inside refl (λ u d. Owns-free s u (s.pc u) free (v.owns u));
    sums = v.sums;
  }
  Step-Exclusive _ _ (load t s h) v =
      let own = rw h at (v.owns t) in
      record {
        owns =
            Owns-update (load_cnt (infos t) t s) s.pc t (loaded (s.cnt_num (infos t).class_))
              (own, refl) (λ u d. Owns-other s t u (s.pc u) own d (v.owns u));
        sums = v.sums;
      }
  Step-Exclusive _ _ (store t value s h) v =
      let (own, kept) = rw h at (v.owns t) in
      let i = (infos t).class_ in
      record {
        owns =
            Owns-update (store_cnt (infos t) t value s) s.pc t stored own
              (λ u d. Owns-other s t u (s.pc u) own d (v.owns u));
        sums = λ c. elim (Bool-cases (c == i)) [
          | inl same ↦ rw same (
              sums_stored (infos t).cnt_type value (s.ups i) (s.downs i)
                (ap (λ (n : ℕ). u32 (n + s.downs i)) kept ∙ v.sums i))
          | inr differ ↦ rw differ (v.sums c)
        ];
      }
  Step-Exclusive _ _ (unlock t s h) v =
      let own = rw h at (v.owns t) in
      record {
        owns =
            Owns-update (unlocked t s) s.pc t outside tt
              (λ u d. Owns-other s t u (s.pc u) own d (v.owns u));
        sums = v.sums;
      }

  -- In any interleaving of the steps of any threads from a state where this holds: a thread between its
  -- lock and its unlock owns the mutex, so that there is at most one, and each counter is what it was
  -- counted up less what it was counted down, modulo 2^32.
  pub Steps-Exclusive : (a b : System) → Steps infos a b → Exclusive a → Exclusive b
  Steps-Exclusive _ _ (stay s) v = v
  Steps-Exclusive _ _ (next a b c s ss) v = Steps-Exclusive b c ss (Step-Exclusive a b s v)
