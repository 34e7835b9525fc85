-- ===== src/Gitrev.antt =====
-- internal/gitrev: the identity of a revision. How it is read from git is not modelled.
use aquila.Base.{Str, codes, Bool}

pub record Revision : Type 0 where
  pub commit : Str
  pub tree : Str
  pub path : Str
  pub dirty : Bool
  pub source : Str

abbrev pub source_built : Str
source_built = codes "built"

abbrev pub source_declared : Str
source_declared = codes "declared"
