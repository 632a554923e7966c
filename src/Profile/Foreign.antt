-- ===== src/Profile/Foreign.antt =====
-- core/src/profile/format.rs, the tolerance of unknown providers: the walk over the provider entries
-- of a container's CBOR tree, and the two rewrites that it applies. The walk changes its tree in
-- place; both callers drop the tree of a walk that fails, so a walk here answers the new tree or the
-- error.
pub mod Laws
pub mod Kept
use zz_drop.Prelude.{
  Text, Bytes, codes, Bool, true, false, not, ◌&&◌, ◌||◌, any, List, [], ◌∷◌, Result, ok, err,
  text_eq, if◌then◌else◌, ◌>>=◌,
}
use zz_drop.Profile.{ProviderProfile, UnknownProvider}
use zz_drop.Profile.Container.{ProfileSet}
use zz_drop.Profile.Crypto.{ProfileCryptoError, Libraries, Cbor, fails_as}
use zz_drop.Profile.Crypto.CborTree.{Value, Values, Entries, tagged}

abbrev pub known_provider_tags : List Text
known_provider_tags =
    codes "nextcloud" ∷ codes "google_drive" ∷ codes "one_drive" ∷ codes "dropbox" ∷ []

abbrev pub unknown_provider_tag : Text
unknown_provider_tag = codes "unknown"

-- `tag == UNKNOWN_PROVIDER_TAG || KNOWN_PROVIDER_TAGS.contains(tag)`
unfoldable pub taken_tag : Text → Bool
taken_tag tag = text_eq tag unknown_provider_tag || any (text_eq tag) known_provider_tags

abbrev pub is_unknown : ProviderProfile → Bool
is_unknown (ProviderProfile.unknown _) = true
is_unknown _ = false

unfoldable pub set_holds_unknown_provider : ProfileSet → Bool
set_holds_unknown_provider set = any (λ p. any is_unknown p.providers) set.profiles

abbrev pub Rewrite : Type 0
Rewrite = Value → Result ProfileCryptoError Value

-- `for entry in providers.iter_mut() { rewrite(entry)? }`
unfoldable pub each_value : Rewrite → Values → Result ProfileCryptoError Values
each_value rewrite Values.nil = ok Values.nil
each_value rewrite (Values.cons v vs) = do
  w ← rewrite v
  ws ← each_value rewrite vs
  ok (Values.cons w ws)

unfoldable pub in_array : Rewrite → Rewrite
in_array rewrite (Value.array vs) = do ws ← each_value rewrite vs; ok (Value.array ws)
in_array rewrite v = ok v

abbrev pub is_key : Text → Value → Bool
is_key name (Value.text k) = text_eq k name
is_key name _ = false

unfoldable pub each_entry : Text → Rewrite → Entries → Result ProfileCryptoError Entries
each_entry name rewrite Entries.end = ok Entries.end
each_entry name rewrite (Entries.entry k v es) = do
  w ← if is_key name k then in_array rewrite v else ok v
  ws ← each_entry name rewrite es
  ok (Entries.entry k w ws)

unfoldable pub in_map : Text → Rewrite → Rewrite
in_map name rewrite (Value.entries es) = do ws ← each_entry name rewrite es; ok (Value.entries ws)
in_map name rewrite v = ok v

unfoldable pub for_each_provider_entry : Rewrite → Rewrite
for_each_provider_entry rewrite = in_map (codes "profiles") (in_map (codes "providers") rewrite)

module _ (l : Libraries) where
  unfoldable pub value_from {ℓ} : {A : Type ℓ} → Cbor A → A → Result ProfileCryptoError Value
  value_from cbor t = do
    buf ← fails_as ProfileCryptoError.payload_encode (cbor.into_writer t)
    fails_as ProfileCryptoError.payload_encode (l.cbor_value.from_reader buf)

  unfoldable pub value_to {ℓ} : {A : Type ℓ} → Cbor A → Value → Result ProfileCryptoError A
  value_to cbor v = do
    buf ← fails_as ProfileCryptoError.payload_decode (l.cbor_value.into_writer v)
    fails_as ProfileCryptoError.payload_decode (cbor.from_reader buf)

  abbrev pub or_else {ℓ} :
      {A : Type ℓ} → ProfileCryptoError → Result ProfileCryptoError A → Result ProfileCryptoError A
  or_else e (ok a) = ok a
  or_else e (err _) = err e

  -- the entry `{tag: payload}` with a tag that this binary does not know
  unfoldable pub to_carrier : Text → Value → Result ProfileCryptoError Value
  unfolding value_from
  to_carrier tag content = do
    payload ← fails_as ProfileCryptoError.payload_decode (l.cbor_value.into_writer content)
    or_else ProfileCryptoError.payload_decode (
        value_from l.cbor_provider
          (ProviderProfile.unknown (record { tag = tag; payload_cbor = payload })))

  -- the closure of `shield_unknown_providers`
  unfoldable pub shield_entry : Rewrite
  shield_entry (Value.entries (Entries.entry (Value.text tag) content Entries.end)) =
      if taken_tag tag then ok (tagged tag content) else to_carrier tag content
  shield_entry v = ok v

  unfoldable pub shield_unknown_providers : Rewrite
  shield_unknown_providers = for_each_provider_entry shield_entry

  unfoldable pub from_carrier : Value → ProviderProfile → Result ProfileCryptoError Value
  from_carrier v (ProviderProfile.unknown carrier) =
      if taken_tag carrier.tag then err ProfileCryptoError.payload_encode else do
        payload ←
            fails_as ProfileCryptoError.payload_encode
              (l.cbor_value.from_reader carrier.payload_cbor)
        ok (tagged carrier.tag payload)
  from_carrier v _ = ok v

  -- the closure of `restore_unknown_providers`
  unfoldable pub restore_entry : Rewrite
  restore_entry (Value.entries (Entries.entry (Value.text tag) content Entries.end)) =
      if text_eq tag unknown_provider_tag
      then or_else ProfileCryptoError.payload_encode (value_to l.cbor_provider (tagged tag content))
        >>= from_carrier (tagged tag content)
      else ok (tagged tag content)
  restore_entry v = ok v

  unfoldable pub restore_unknown_providers : Rewrite
  restore_unknown_providers = for_each_provider_entry restore_entry
