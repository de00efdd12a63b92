-- ===== src/Ctl/Create/Fields.antt =====
-- The payload of jobctl create reads back as its flags, though fields that are zero are left out.
use jobsys.Base.{
  ◌≡◌, refl, sym, ap, ◌∙◌, String, true, false, List, ◌∷◌, ◌++◌, text_eq, Bool-cases, inl, inr,
  arith, eq_iff,
}
use jobsys.Base.Int.{ℤ, pos, negsuc, eqℤ}
use jobsys.Ctl.Create.{
  Flags, Field, int_field, int_if, text_if, payload_fields, int_in, text_in, payload_in, payload_of,
}

eqℤ-zero : (n : ℤ) → eqℤ n (pos 0) ≡ true → n ≡ pos 0
eqℤ-zero (pos n) e = let zero_is : n ≡ 0 = ground arith in ap pos zero_is
eqℤ-zero (negsuc n) e = cc

module _ (key k : String) (v : ℤ) (fs : List Field) where
  int_if-other : text_eq k key ≡ false → int_in key (int_if k v ++ fs) ≡ int_in key fs
  unfolding int_in
  int_if-other other = elim (Bool-cases (eqℤ v (pos 0))) [
    | inl z ↦ rw z refl
    | inr n ↦ rw (n, other) refl
  ]

  int_if-same : text_eq k key ≡ true → int_in key fs ≡ pos 0 → int_in key (int_if k v ++ fs) ≡ v
  unfolding int_in
  int_if-same same absent = elim (Bool-cases (eqℤ v (pos 0))) [
    | inl z ↦ rw (z, absent) (sym (eqℤ-zero v z))
    | inr n ↦ rw (n, same) refl
  ]

  text_in-int_if : text_in key (int_if k v ++ fs) ≡ text_in key fs
  unfolding text_in
  text_in-int_if = elim (Bool-cases (eqℤ v (pos 0))) [ inl z ↦ rw z refl | inr n ↦ rw n refl ]

int_in-text_if : (key k v : String) → int_in key (text_if k v) ≡ pos 0
unfolding int_in
int_in-text_if key k v = elim (Bool-cases (text_eq v "")) [ inl z ↦ rw z refl | inr n ↦ rw n refl ]

text_in-text_if : (key v : String) → text_eq key key ≡ true → text_in key (text_if key v) ≡ v
unfolding text_in
text_in-text_if key v same = elim (Bool-cases (text_eq v "")) [
  | inl z ↦ rw z (sym ((eq_iff v "").0 z))
  | inr n ↦ rw (n, same) refl
]

module _ (f : Flags) where
  abbrev last_fields : List Field
  last_fields = int_field "lines" f.lines ∷ text_if "prefix" f.prefix

  abbrev from_attempts : List Field
  from_attempts = int_if "fail_attempts" f.fail_attempts ++ last_fields

  abbrev from_fail_at : List Field
  from_fail_at = int_if "fail_at" f.fail_at ++ from_attempts

  lines_back : int_in "lines" (payload_fields f) ≡ f.lines
  unfolding payload_fields int_in
  lines_back =
      int_if-other "lines" "delay_ms" f.delay_ms from_fail_at refl
      ∙ int_if-other "lines" "fail_at" f.fail_at from_attempts refl
      ∙ int_if-other "lines" "fail_attempts" f.fail_attempts last_fields refl

  attempts_back : int_in "fail_attempts" (payload_fields f) ≡ f.fail_attempts
  unfolding payload_fields int_in
  attempts_back =
      int_if-other "fail_attempts" "delay_ms" f.delay_ms from_fail_at refl
      ∙ int_if-other "fail_attempts" "fail_at" f.fail_at from_attempts refl
      ∙ int_if-same "fail_attempts" "fail_attempts" f.fail_attempts last_fields refl
          (int_in-text_if "fail_attempts" "prefix" f.prefix)

  fail_at_back : int_in "fail_at" (payload_fields f) ≡ f.fail_at
  unfolding payload_fields int_in
  fail_at_back =
      int_if-other "fail_at" "delay_ms" f.delay_ms from_fail_at refl
      ∙ int_if-same "fail_at" "fail_at" f.fail_at from_attempts refl (
          int_if-other "fail_at" "fail_attempts" f.fail_attempts last_fields refl
          ∙ int_in-text_if "fail_at" "prefix" f.prefix)

  delay_back : int_in "delay_ms" (payload_fields f) ≡ f.delay_ms
  unfolding payload_fields int_in
  delay_back = int_if-same "delay_ms" "delay_ms" f.delay_ms from_fail_at refl (
      int_if-other "delay_ms" "fail_at" f.fail_at from_attempts refl
      ∙ int_if-other "delay_ms" "fail_attempts" f.fail_attempts last_fields refl
      ∙ int_in-text_if "delay_ms" "prefix" f.prefix)

  prefix_back : text_in "prefix" (payload_fields f) ≡ f.prefix
  unfolding payload_fields text_in
  prefix_back =
      text_in-int_if "prefix" "delay_ms" f.delay_ms from_fail_at
      ∙ text_in-int_if "prefix" "fail_at" f.fail_at from_attempts
      ∙ text_in-int_if "prefix" "fail_attempts" f.fail_attempts last_fields
      ∙ text_in-text_if "prefix" f.prefix refl

  -- Fields that are left out for being zero read as zero.
  pub payload_in-payload_fields : payload_in (payload_fields f) ≡ payload_of f
  unfolding payload_in
  payload_in-payload_fields =
      rw (lines_back, prefix_back, delay_back, fail_at_back, attempts_back) refl
