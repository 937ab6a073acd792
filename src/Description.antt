-- ===== src/Description.antt =====
-- The read-only objects that the native client hands out (pyaseba/client/_client_impl): a node's
-- description and an event.
use pyaseba.Base.{ℕ, Text, ℤ, List, Dict}

pub record Description : Type 0 where
  pub name : Text
  pub protocol_version : ℕ
  -- by name: index and size
  pub variables : Dict Text (ℕ × ℕ)
  -- by index: name and size
  pub variables_by_index : Dict ℕ (Text × ℕ)
  pub variables_size : ℕ
  -- by name: the description, and the arguments with their sizes
  pub functions : Dict Text (Text × List (Text × ℤ))
  pub local_events : Dict Text Text
  pub user_events : Dict Text ℤ

pub record Event : Type 0 where
  pub source : ℤ
  pub name : Text
  -- the payload
  pub words : List ℤ
