-- ===== src/Profile/Foreign/Laws.antt =====
-- The walk lifts what holds of one provider entry to the whole container.
use zz_drop.Prelude.{
  codes, Text, ◌≡◌, refl, subst, Bool, true, false, Result, ok, err, arith, >>=-eq-ok,
  if◌then◌else◌, ◌>>=◌,
}
use zz_drop.Profile.Crypto.CborTree.{Value, Values, Entries}
use zz_drop.Profile.Foreign.{
  Rewrite, each_value, in_array, each_entry, in_map, for_each_provider_entry, is_key,
}

-- Two steps whose results are put together.
pair-eq-ok :
    {E A B C : Type 0} (r : Result E A) (t : Result E B) (f : A → B → C) {c : C}
    → (r >>= (λ a. t >>= (λ b. ok (f a b)))) ≡ ok c
    → (a : A) × ((b : B) × (r ≡ ok a) × (t ≡ ok b) × (f a b ≡ c))
pair-eq-ok (ok a) (ok b) f h = (a, (b, refl, refl, ground arith))
pair-eq-ok (err e) t f h = cc
pair-eq-ok (ok a) (err e) f h = cc

-- `back` takes the result of `rewrite` to the start, wherever it leaves the start alone.
abbrev pub Reverts : Rewrite → Rewrite → Type 0
Reverts rewrite back = (v w : Value) → back v ≡ ok v → rewrite v ≡ ok w → back w ≡ ok v

module _ (rewrite back : Rewrite) (reverts : Reverts rewrite back) where
  each_value-back :
      (vs ws : Values)
      → each_value back vs ≡ ok vs
      → each_value rewrite vs ≡ ok ws
      → each_value back ws ≡ ok vs
  unfolding each_value
  each_value-back Values.nil ws b r =
      let e : Values.nil ≡ ws = ground arith in subst (λ u. each_value back u ≡ ok Values.nil) e b
  each_value-back (Values.cons v vs) ws b r =
      let (v', (vs', bv, bvs, eb)) = pair-eq-ok (back v) (each_value back vs) Values.cons b in
      let (w, (us, rv, rvs, er)) = pair-eq-ok (rewrite v) (each_value rewrite vs) Values.cons r in
      let ev : v' ≡ v = ground arith in
      let evs : vs' ≡ vs = ground arith in
      let hd : back w ≡ ok v = reverts v w (ground arith) rv in
      let tl : each_value back us ≡ ok vs = each_value-back vs us (ground arith) rvs in
      subst (λ u. each_value back u ≡ ok (Values.cons v vs)) er (rw (hd, tl) refl)

  in_array-back : Reverts (in_array rewrite) (in_array back)
  unfolding in_array
  in_array-back (Value.array vs) w b r =
      let (vs', bvs, eb) = >>=-eq-ok (each_value back vs) _ b in
      let (ws, rvs, er) = >>=-eq-ok (each_value rewrite vs) _ r in
      let e : vs' ≡ vs = ground arith in
      let back_ws : each_value back ws ≡ ok vs = each_value-back vs ws (ground arith) rvs in
      let w_is : Value.array ws ≡ w = ground arith in
      subst (λ u. in_array back u ≡ ok (Value.array vs)) w_is (rw back_ws refl)
  in_array-back (Value.text t) w b r = ground arith
  in_array-back (Value.entries es) w b r = ground arith
  in_array-back (Value.other n) w b r = ground arith

  -- `rewrite` under the keys that a test picks
  abbrev at_key : Rewrite → Bool → Rewrite
  at_key g picked v = if picked then in_array g v else ok v

  at_key-back : (picked : Bool) → Reverts (at_key rewrite picked) (at_key back picked)
  at_key-back true v w b r = in_array-back v w b r
  at_key-back false v w b r = ground arith

  each_entry-back :
      (name : Text) (es ws : Entries)
      → each_entry name back es ≡ ok es
      → each_entry name rewrite es ≡ ok ws
      → each_entry name back ws ≡ ok es
  unfolding each_entry
  each_entry-back name Entries.end ws b r =
      let e : Entries.end ≡ ws = ground arith in
      subst (λ u. each_entry name back u ≡ ok Entries.end) e b
  each_entry-back name (Entries.entry k v es) ws b r =
      let at = is_key name k in
      let (v', (es', bv, bes, eb)) =
        pair-eq-ok (at_key back at v) (each_entry name back es) (Entries.entry k) b in
      let (w, (us, rv, res, er)) =
        pair-eq-ok (at_key rewrite at v) (each_entry name rewrite es) (Entries.entry k) r in
      let ev : v' ≡ v = ground arith in
      let ees : es' ≡ es = ground arith in
      let hd : at_key back at w ≡ ok v = at_key-back at v w (ground arith) rv in
      let tl : each_entry name back us ≡ ok es = each_entry-back name es us (ground arith) res in
      subst (λ u. each_entry name back u ≡ ok (Entries.entry k v es)) er (rw (hd, tl) refl)

  in_map-back : (name : Text) → Reverts (in_map name rewrite) (in_map name back)
  unfolding in_map
  in_map-back name (Value.entries es) w b r =
      let (es', bes, eb) = >>=-eq-ok (each_entry name back es) _ b in
      let (us, res, er) = >>=-eq-ok (each_entry name rewrite es) _ r in
      let e : es' ≡ es = ground arith in
      let back_us : each_entry name back us ≡ ok es =
        each_entry-back name es us (ground arith) res in
      let w_is : Value.entries us ≡ w = ground arith in
      subst (λ u. in_map name back u ≡ ok (Value.entries es)) w_is (rw back_us refl)
  in_map-back name (Value.text t) w b r = ground arith
  in_map-back name (Value.array es) w b r = ground arith
  in_map-back name (Value.other n) w b r = ground arith

pub for_each_provider_entry-back :
    (rewrite back : Rewrite)
    → Reverts rewrite back
    → Reverts (for_each_provider_entry rewrite) (for_each_provider_entry back)
unfolding for_each_provider_entry
for_each_provider_entry-back rewrite back reverts =
    let inner = codes "providers" in
    in_map-back (in_map inner rewrite) (in_map inner back) (in_map-back rewrite back reverts inner)
      (codes "profiles")
