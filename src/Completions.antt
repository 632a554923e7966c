-- ===== src/Completions.antt =====
-- core/src/completions/mod.rs, as far as the block in a shell's rc file: the markers and `RcAction`.
pub mod RcBlock
use zz_drop.Prelude.{Bytes, codes}

-- the markers are ASCII, so their codes are their bytes
abbrev pub block_start : Bytes
block_start = codes "# >>> zz-drop SACS >>>"

abbrev pub block_end : Bytes
block_end = codes "# <<< zz-drop SACS <<<"

pub data RcAction : Type 0 where
  inserted updated unchanged : RcAction
