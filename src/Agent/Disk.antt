-- ===== src/Agent/Disk.antt =====
-- The part of src/agent/state.rs that writes the container: the file, its temporary neighbour, and
-- what the operating system answers to each call of `persist`.
use zz_drop.Prelude.{ℕ, ◌≡◌, Text, Bool, Option, none, some, Result, ok, err, if◌then◌else◌, arith}

pub record StoredFile : Type 0 where
  pub content : Text
  pub mtime : ℕ

-- `container_path`, and the same path with the extension `zz.tmp`
pub record Disk : Type 0 where
  pub container : Option StoredFile
  pub tmp : Option Text

-- The answers of the operating system in one run of `persist`: for each call that can fail, `none`
-- for success or the error; whether `metadata` works, before and after; the text that a failed write
-- leaves, and the time that a successful one stamps on the file.
pub record DiskAnswers : Type 0 where
  pub stat_before : Bool
  pub create_dir_all : Option Text
  pub write : Option Text
  pub set_permissions : Option Text
  pub rename : Option Text
  pub stat_after : Bool
  pub partial : Text
  pub stamp : ℕ

-- `metadata(path).ok().and_then(|m| m.modified().ok())`
abbrev pub modified : Bool → Disk → Option ℕ
modified works disk =
    if works then elim disk.container [ none ↦ none | some f ↦ some f.mtime ] else none

-- from `create_dir_all` to `rename`
unfoldable pub replace_container : Text → DiskAnswers → Disk → Result Text (Unit {0}) × Disk
replace_container envelope os disk =
    let written = record disk { tmp = some envelope } in
    elim os.create_dir_all [
      | some e ↦ (err e, disk)
      | none ↦ elim os.write [
        | some e ↦ (err e, record disk { tmp = some os.partial })
        | none ↦ elim os.set_permissions [
          | some e ↦ (err e, written)
          | none ↦ elim os.rename [
            | some e ↦ (err e, written)
            | none ↦ (
              ok tt,
              record {
                container = some (record { content = envelope; mtime = os.stamp });
                tmp = none;
              },
            )
          ]
        ]
      ]
    ]

abbrev pub or_old :
    Result Text (Unit {0}) → Option StoredFile → Option StoredFile → Option StoredFile
or_old (ok _) new old = new
or_old (err _) new old = old

-- The container is replaced as a whole or left as it was: after success it holds the new text, after
-- the failure of any call its old content.
pub container-replace_container :
    (envelope : Text) (os : DiskAnswers) (disk : Disk)
    → (replace_container envelope os disk).1.container
      ≡ or_old
          (replace_container envelope os disk).0
          (some (record { content = envelope; mtime = os.stamp }))
          disk.container
unfolding replace_container
container-replace_container envelope os disk = ground arith
