-- ===== src/Devices/Upsert.antt =====
-- The statements that write a row of gruvax.devices for a fingerprint keep the fingerprints distinct.
use mathlib.Core.Option.{some-injective}
use gruvax.Base.{
  ℕ, ◌≡◌, refl, ◌∙◌, Bool, true, false, ◌&&◌, Option, none, some, List, [], ◌∷◌, ap, Text, any,
  arith, subst, ◌>>=◌, Bool-cases, inl, inr,
}
use gruvax.Devices.{
  Device, Environment, update, has_id, Written, checked, returning, one_active, one_per_profile,
}
use gruvax.Devices.Bind.{
  is_active_as, is_revoked_as, is_active_for, assign, update_by_fingerprint, latest_revoked,
  reinstated, reactivate, reactivate_row, rebind, update_by_profile, new_device, insert_device,
  or_next, upsert,
}
use gruvax.Devices.Distinct.{
  IsDistinct, is_free, update-IsDistinct, append-IsDistinct, rebound-IsDistinct,
}

pub checked-inv : (w v : Written) → checked w ≡ some v → (w ≡ v) × (one_active w.0 ≡ true)
unfolding checked
checked-inv (rows, id) v h = elim (Bool-cases (one_active rows && one_per_profile rows)) [
  | inl e ↦ ground (arith, e)
  | inr e ↦ ground (arith, e)
]

none-any : (p : Device → Bool) (rows : List Device) → returning p rows ≡ none → any p rows ≡ false
unfolding returning
none-any p [] h = refl
none-any p (d ∷ rows) h = elim (Bool-cases (p d)) [
  | inl e ↦ ground (arith, e)
  | inr e ↦ ground (arith, e, none-any p rows)
]

update-none :
    (p : Device → Bool) (f : Device → Device) (rows : List Device)
    → any p rows ≡ false
    → update p f rows ≡ rows
update-none p f [] h = refl
update-none p f (d ∷ rows) h = elim (Bool-cases (p d)) [
  | inl e ↦ ground (arith, e)
  | inr e ↦ ground (arith, e, update-none p f rows)
]

none-revoked :
    (fp : Text) (rows : List Device)
    → latest_revoked fp rows ≡ none
    → any (is_revoked_as fp) rows ≡ false
unfolding latest_revoked
none-revoked fp [] h = refl
none-revoked fp (d ∷ rows) h = elim (Bool-cases (is_revoked_as fp d)) [
  | inl e ↦ ground (arith, e)
  | inr e ↦ ground (arith, e, none-revoked fp rows)
]

free-none :
    (fp : Text) (rows : List Device)
    → any (is_active_as fp) rows ≡ false
    → any (is_revoked_as fp) rows ≡ false
    → is_free fp rows ≡ true
free-none fp [] h k = refl
free-none fp (d ∷ rows) h k = ground (arith, free-none fp rows)

>>=-some :
    {A B : Type 0} (o : Option A) (f : A → Option B) (b : B)
    → (o >>= f) ≡ some b
    → (a : A) × ((o ≡ some a) × (f a ≡ some b))
>>=-some none f b h = ground arith
>>=-some (some a) f b h = (a, (refl, h))

-- What a chain of statements keeps: the rows are distinct, and while no statement has returned a row they
-- satisfy `P`.
abbrev IsStage : (List Device → Type 0) → Written → Type 0
IsStage P w = IsDistinct w.0 × (w.1 ≡ none → P w.0)

next-IsStage :
    (P Q : List Device → Type 0) (next : List Device → Option Written)
    → ((rows : List Device) (v : Written)
        → IsDistinct rows
        → P rows
        → next rows ≡ some v
        → IsStage Q v)
    → (w v : Written) → IsStage P w
    → or_next next w ≡ some v
    → IsStage Q v
next-IsStage P Q next step (rows, none) v h e = step rows v h.0 (h.1 refl) e
next-IsStage P Q next step (rows, some id) v h e =
    subst (IsStage Q) (some-injective _ v e) (h.0, λ n. ground (arith, n))

module _ (profile_id : ℕ) (name fp : Text) where
  first-IsStage :
      (rows : List Device) (v : Written)
      → IsDistinct rows
      → update_by_fingerprint profile_id name fp rows ≡ some v
      → IsStage (λ r. any (is_active_as fp) r ≡ false) v
  unfolding update_by_fingerprint
  first-IsStage rows v h e =
      subst (IsStage (λ r. any (is_active_as fp) r ≡ false)) (checked-inv _ v e).0 (
        update-IsDistinct (is_active_as fp) (assign profile_id name) (λ d. refl) rows ∙ h,
        λ n.
            let k : any (is_active_as fp) rows ≡ false = none-any (is_active_as fp) rows n in
            ap (any (is_active_as fp))
              (update-none (is_active_as fp) (assign profile_id name) rows k)
            ∙ k,
      )

  row-IsStage :
      (rows : List Device) (found : Option Device) (v : Written)
      → IsDistinct rows
      → (found ≡ none → is_free fp rows ≡ true)
      → reactivate_row profile_id name rows found ≡ some v
      → IsStage (λ r. is_free fp r ≡ true) v
  row-IsStage rows none v h k e =
      subst (IsStage (λ r. is_free fp r ≡ true)) (some-injective _ v e) (h, λ n. k refl)
  row-IsStage rows (some d) v h k e =
      subst (IsStage (λ r. is_free fp r ≡ true)) (checked-inv _ v e).0 (
        update-IsDistinct (has_id d.id) (λ e. reinstated (assign profile_id name e)) (λ d. refl)
              rows
            ∙ h,
        λ n. ground (arith, n),
      )

  second-IsStage :
      (rows : List Device) (v : Written)
      → IsDistinct rows
      → any (is_active_as fp) rows ≡ false
      → reactivate profile_id name fp rows ≡ some v
      → IsStage (λ r. is_free fp r ≡ true) v
  unfolding reactivate
  second-IsStage rows v h k e =
      row-IsStage rows (latest_revoked fp rows) v h
        (λ n. free-none fp rows k (none-revoked fp rows n)) e

  third-IsStage :
      (rows : List Device) (v : Written)
      → IsDistinct rows
      → is_free fp rows ≡ true
      → update_by_profile profile_id name fp rows ≡ some v
      → IsStage (λ r. is_free fp r ≡ true) v
  unfolding update_by_profile
  third-IsStage rows v h k e =
      let inv = checked-inv _ v e in
      subst (IsStage (λ r. is_free fp r ≡ true)) inv.0 (
        rebound-IsDistinct profile_id name fp rows h k inv.1,
        λ n.
            ap (is_free fp) (
              update-none (is_active_for profile_id) (rebind name fp) rows
                (none-any (is_active_for profile_id) rows n))
            ∙ k,
      )

  last-IsStage :
      (env : Environment) (rows : List Device) (v : Written)
      → IsDistinct rows
      → is_free fp rows ≡ true
      → insert_device env profile_id name fp rows ≡ some v
      → IsStage (λ r. Unit) v
  unfolding insert_device
  last-IsStage env rows v h k e =
      subst (IsStage (λ r. Unit)) (checked-inv _ v e).0
        (append-IsDistinct (new_device env profile_id name fp) rows h k, λ n. tt)

  pub upsert-IsDistinct :
      (env : Environment) (rows : List Device) (v : Written)
      → IsDistinct rows
      → upsert env profile_id name fp rows ≡ some v
      → IsDistinct v.0
  unfolding upsert
  upsert-IsDistinct env rows v h e =
      let (w3, (e3, l3)) = >>=-some _ _ v e in
      let (w2, (e2, l2)) = >>=-some _ _ w3 e3 in
      let (w1, (e1, l1)) = >>=-some _ _ w2 e2 in
      let s1 = first-IsStage rows w1 h e1 in
      let s2 = next-IsStage _ _ (reactivate profile_id name fp) second-IsStage w1 w2 s1 l1 in
      let s3 = next-IsStage _ _ (update_by_profile profile_id name fp) third-IsStage w2 w3 s2 l2 in
      (next-IsStage _ (λ r. Unit) (insert_device env profile_id name fp) (last-IsStage env) w3 v s3
        l3).0
