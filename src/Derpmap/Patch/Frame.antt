-- ===== src/Derpmap/Patch/Frame.antt =====
-- What a patch leaves as it was.
use tailscale_derp.Base.{
  ◌≡◌, refl, arith, String, equal_fold, true, false, Bool-cases, inl, inr, Option, none, some,
  if◌then◌else◌,
}
use tailscale_derp.Derpmap.{
  Hujson, Gaps, Json, literal, object, array, Members, no_members, member, named, object_member,
  append_object_member, replace_object_member, remove_object_member,
}

-- A member as it is written: what surrounds it, its name and its value.
abbrev pub Whole : Type 0 → Type 0
Whole R = Gaps × Json R × Json R

-- The first member of a name, whole.
unfoldable pub whole_member : (hj : Hujson) → Members hj.Raw → String → Option (Whole hj.Raw)
unfolding named
whole_member hj (no_members gap) name = none
whole_member hj (member g n v ms) name =
    if named hj name n then some (g, n, v) else whole_member hj ms name

module _ (hj : Hujson) (name other : String) where
  -- No member has both names.
  pub record Apart : Type 0 where
    pub never : (t : String) → equal_fold t name ≡ true → equal_fold t other ≡ false
    pub fresh : named hj other (literal (hj.from_text name)) ≡ false

  named_other : Apart → (j : Json hj.Raw) → named hj name j ≡ true → named hj other j ≡ false
  unfolding named
  named_other h (literal r) q = ground (arith, h.never (hj.text_of r))
  named_other h (object ms) q = ground arith
  named_other h (array es) q = refl

  pub replace-other :
      Apart
      → (ms : Members hj.Raw) (v : Json hj.Raw)
      → object_member hj (replace_object_member hj ms name v) other ≡ object_member hj ms other
  unfolding object_member replace_object_member
  replace-other h (no_members gap) v = refl
  replace-other h (member g n w ms) v = elim (Bool-cases (named hj name n)) [
    | inl q ↦ simp (q, named_other h n q) refl
    | inr q ↦ simp (q, replace-other h ms v) refl
  ]

  pub remove-other :
      Apart
      → (ms : Members hj.Raw)
      → object_member hj (remove_object_member hj ms name) other ≡ object_member hj ms other
  unfolding object_member remove_object_member
  remove-other h (no_members gap) = refl
  remove-other h (member g n w ms) = elim (Bool-cases (named hj name n)) [
    | inl q ↦ simp (q, named_other h n q) refl
    | inr q ↦ simp (q, remove-other h ms) refl
  ]

  pub append-other :
      Apart
      → (ms : Members hj.Raw) (v : Json hj.Raw)
      → object_member hj (append_object_member hj ms name v) other ≡ object_member hj ms other
  unfolding object_member append_object_member
  append-other h (no_members gap) v = simp h.fresh refl
  append-other h (member g n w ms) v = simp (append-other h ms v) refl

  pub whole-replace_other :
      Apart
      → (ms : Members hj.Raw) (v : Json hj.Raw)
      → whole_member hj (replace_object_member hj ms name v) other ≡ whole_member hj ms other
  unfolding whole_member replace_object_member
  whole-replace_other h (no_members gap) v = refl
  whole-replace_other h (member g n w ms) v = elim (Bool-cases (named hj name n)) [
    | inl q ↦ simp (q, named_other h n q) refl
    | inr q ↦ simp (q, whole-replace_other h ms v) refl
  ]

  pub whole-append_other :
      Apart
      → (ms : Members hj.Raw) (v : Json hj.Raw)
      → whole_member hj (append_object_member hj ms name v) other ≡ whole_member hj ms other
  unfolding whole_member append_object_member
  whole-append_other h (no_members gap) v = simp h.fresh refl
  whole-append_other h (member g n w ms) v = simp (whole-append_other h ms v) refl
