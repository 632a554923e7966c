-- ===== src/Profile/Crypto/CborTree.antt =====
-- `ciborium::value::Value`, as far as core/src/profile/format.rs reads it: texts, arrays and maps.
-- The other constructors are passed by unread; `other` stands for them.
use zz_drop.Prelude.{ℕ, Text}

mutual
  pub data Value : Type 0 where
    text : Text → Value
    array : Values → Value
    entries : Entries → Value
    other : ℕ → Value

  pub data Values : Type 0 where
    nil : Values
    cons : Value → Values → Values

  pub data Entries : Type 0 where
    end : Entries
    entry : (key value : Value) → Entries → Entries

-- `{tag: payload}`, a map with one entry
abbrev pub tagged : Text → Value → Value
tagged tag payload = entries (entry (text tag) payload end)
