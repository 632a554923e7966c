-- ===== src/Profile/Foreign/Kept.antt =====
-- An entry of a newer version survives the way through this one.
use zz_drop.Prelude.{
  Text, ◌≡◌, refl, subst, false, ok, err, arith, text_eq, Bool-cases, if◌then◌else◌, Option-cases,
  inl, inr,
}
use zz_drop.Profile.{UnknownProvider}
use zz_drop.Profile.Crypto.{ProfileCryptoError, Libraries}
use zz_drop.Profile.Crypto.Lawful.{RoundTrips, CarrierForm}
use zz_drop.Profile.Crypto.CborTree.{Value, Entries, tagged}
use zz_drop.Profile.Foreign.{
  taken_tag, value_from, value_to, to_carrier, from_carrier, shield_entry, restore_entry,
  shield_unknown_providers, restore_unknown_providers, unknown_provider_tag,
}
use zz_drop.Profile.Foreign.Laws.{Reverts, for_each_provider_entry-back}

module _ (l : Libraries) (values : RoundTrips l.cbor_value)
    (carriers : (u : UnknownProvider) → CarrierForm l u) where
  restore-to_carrier :
      (tag : Text) (content w : Value)
      → taken_tag tag ≡ false
      → to_carrier l tag content ≡ ok w
      → restore_entry l w ≡ ok (tagged tag content)
  unfolding to_carrier value_from value_to restore_entry from_carrier text_eq
  restore-to_carrier tag content w free made =
      elim (Option-cases (l.cbor_value.into_writer content)) [
        | inl missing ↦
            let failed : to_carrier l tag content ≡ err ProfileCryptoError.payload_decode =
              rw (to_carrier, missing) refl in
            cc
        | inr (p, written) ↦
            let (inner, (bytes, again, e1, e2, e3, e4)) =
              carriers (record { tag = tag; payload_cbor = p }) in
            let read = values content p written in
            let made_w : to_carrier l tag content ≡ ok (tagged unknown_provider_tag inner) =
              rw (to_carrier, written, value_from, e1, e2) refl in
            let same : tagged unknown_provider_tag inner ≡ w = ground arith in
            subst (λ u. restore_entry l u ≡ ok (tagged tag content)) same
              (rw (restore_entry, value_to, e3, e4, from_carrier, free, read) refl)
      ]

  left_alone : (v w : Value) → restore_entry l v ≡ ok v → v ≡ w → restore_entry l w ≡ ok v
  left_alone v w b e = subst (λ u. restore_entry l u ≡ ok v) e b

  restore_entry-back : Reverts (shield_entry l) (restore_entry l)
  unfolding shield_entry
  restore_entry-back (Value.entries (Entries.entry (Value.text tag) content Entries.end)) w b r =
      elim (Bool-cases (taken_tag tag)) [
        | inl taken ↦ left_alone (tagged tag content) w b (ground arith)
        | inr free ↦ restore-to_carrier tag content w free (
            subst (λ x. (if x then ok (tagged tag content) else to_carrier l tag content) ≡ ok w)
              free r)
      ]
  restore_entry-back v w b r = left_alone v w b (ground arith)

  -- Where shielding succeeds on a tree on which restoring changes nothing, restoring what it made gives
  -- the tree back: each entry under a tag this binary does not know keeps its tag and its payload. For
  -- trees that CBOR writes and reads back, and carriers whose CBOR form reads back as themselves.
  pub restore-shield :
      (v w : Value)
      → restore_unknown_providers l v ≡ ok v
      → shield_unknown_providers l v ≡ ok w
      → restore_unknown_providers l w ≡ ok v
  unfolding shield_unknown_providers restore_unknown_providers
  restore-shield =
      for_each_provider_entry-back (shield_entry l) (restore_entry l) restore_entry-back
