-- ===== src/Providers/Nextcloud/Collision/Extension.antt =====
-- The extension of a name that a collision leads to.
use zz_drop.Prelude.{
  ℕ, ◌≡◌, ◌≢◌, refl, sym, Text, false, none, some, [], ◌∷◌, ◌++◌, is_nil, append_assoc, contains,
  arith, Option-cases, inl, inr,
}
use zz_drop.Providers.Nextcloud.Collision.Names.{nonzero}
use zz_drop.Providers.Nextcloud.Collision.{
  around_dot, stem_and_extension, file_name, attempt_suffix, rename_with_suffix_at,
}

around_dot-none : (text : Text) → contains b'.' text ≡ false → around_dot text ≡ none
unfolding around_dot contains
around_dot-none [] h = refl
around_dot-none (c ∷ cs) h =
    let tail : around_dot cs ≡ none = around_dot-none cs (ground arith) in rw tail (ground arith)

none-around_dot : (text : Text) → around_dot text ≡ none → contains b'.' text ≡ false
unfolding around_dot contains
none-around_dot [] h = refl
none-around_dot (c ∷ cs) h = elim (Option-cases (around_dot cs)) [
  | inl missing ↦ ground (arith, none-around_dot cs missing)
  | inr (pair, found) ↦ ground arith
]

around_dot-append :
    (front back : Text)
    → contains b'.' back ≡ false
    → around_dot (front ++ b'.' ∷ back) ≡ some (front, back)
unfolding around_dot
around_dot-append [] back h = rw (around_dot-none back h) refl
around_dot-append (c ∷ front) back h = rw (around_dot-append front back h) refl

around_dot-last :
    (text before after : Text)
    → around_dot text ≡ some (before, after)
    → contains b'.' after ≡ false
unfolding around_dot
around_dot-last [] before after h = cc
around_dot-last (c ∷ cs) before after h = elim (Option-cases (around_dot cs)) [
  | inl missing ↦ ground (arith, none-around_dot cs missing)
  | inr ((b, a), found) ↦ ground (arith, around_dot-last cs b a found)
]

stem_and_extension-some :
    (name stem e : Text)
    → stem_and_extension name ≡ (stem, some e)
    → (is_nil stem ≡ false) × (contains b'.' e ≡ false)
unfolding stem_and_extension
stem_and_extension-some name stem e h = elim (Option-cases (around_dot name)) [
  | inl missing ↦ ground arith
  | inr ((before, after), found) ↦ ground (arith, around_dot-last name before after found)
]

append-full : (front back : Text) → is_nil front ≡ false → is_nil (front ++ back) ≡ false
append-full [] back h = cc
append-full (c ∷ front) back h = refl

-- A file whose name has an extension keeps it when it is renamed: the suffix goes to the end of the
-- stem.
pub stem_and_extension-rename_with_suffix_at :
    (original name stem e : Text) (n epoch_secs : ℕ)
    → n ≢ 0
    → file_name original ≡ some name
    → stem_and_extension name ≡ (stem, some e)
    → stem_and_extension (rename_with_suffix_at original n epoch_secs)
      ≡ (stem ++ attempt_suffix n epoch_secs, some e)
unfolding rename_with_suffix_at stem_and_extension
stem_and_extension-rename_with_suffix_at original name stem e n t n0 named parts =
    let (full, plain) = stem_and_extension-some name stem e parts in
    let suffix = attempt_suffix n t in
    let renamed : rename_with_suffix_at original n t ≡ (stem ++ suffix) ++ b'.' ∷ e =
      rw (nonzero n n0, named, rename_with_suffix_at, parts)
        (sym (append_assoc stem suffix (b'.' ∷ e))) in
    rw
      (
        renamed,
        stem_and_extension,
        around_dot-append (stem ++ suffix) e plain,
        append-full stem suffix full,
      )
      refl
