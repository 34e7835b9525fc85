-- ===== src/Url.antt =====
-- What the source uses of the packages net/url and net/netip. The parsers are not modelled: every
-- definition that calls one takes it as a parameter, so each theorem holds for whatever it answers.
use aquila.Base.{ℕ, Str, Bool, Option}

-- The fields of url.URL that the source reads or writes; `rest` stands for the others.
pub record Url : Type 0 where
  pub scheme : Str
  pub host : Str
  pub has_user : Bool
  pub rest : Str

-- netip.Addr: a number of 32 or of 128 bits, the latter with its zone.
pub data Addr : Type 0 where
  v4 : ℕ → Addr
  v6 : ℕ → Str → Addr

-- url.Parse and the methods Hostname, Port and String; netip.ParseAddr.
pub record UrlPackage : Type 0 where
  pub parse : Str → Option Url
  pub hostname : Url → Str
  pub port : Url → Str
  pub render : Url → Str
  pub parse_addr : Str → Option Addr
