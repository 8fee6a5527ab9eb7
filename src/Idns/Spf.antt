-- ===== src/Idns/Spf.antt =====
-- The types of idns/src/parse/spf.rs.
pub mod Macro
pub mod Parse
pub mod Check
pub mod Lookups
pub mod Policy
pub mod Printed
pub mod Gives
pub mod Servers
pub mod Soundness
use npm.Common.{ℕ, Option, List}
use npm.Text.{Text}
use npm.IpSet.IpMap.{IpMap}

pub data Status : Type 0 where
  pass : Status
  fail : Status
  soft_fail : Status
  neutral : Status
  none : Status
  temp_error : Status
  perm_error : Status

pub data Act : Type 0 where
  pass : Act
  fail : Act
  soft_fail : Act
  neutral : Act

pub data HostKind : Type 0 where
  a : Option Text → ℕ → HostKind
  mx : Option Text → ℕ → HostKind
  include : Text → HostKind
  exists : Text → HostKind
  redirect : Text → HostKind

pub record Host : Type 0 where
  pub act : Act
  pub kind : HostKind

pub record Spf : Type 0 where
  pub ip4 : IpMap Act
  pub ip6 : IpMap Act
  pub all : Option Act
  pub host : List Host
  pub ttl : ℕ

unfoldable pub status_of : Act → Status
status_of Act.pass = Status.pass
status_of Act.fail = Status.fail
status_of Act.soft_fail = Status.soft_fail
status_of Act.neutral = Status.neutral
