-- ===== src/Control.antt =====
-- How a round of a loop of teleport/src/source.rs or teleport/src/target.rs ends: it goes on, or
-- `run` returns; and operations on the outside, which can fail.
use iracing_teleport.Protocol.Sender.{ErrorKind, Result, ok, err}

pub data Control : Type 0 where
  running : Control
  stopped : Control
  failed : ErrorKind → Control

-- An operation on an outside state `W`.
abbrev pub Io : Type 0 → Type 0
Io W = W → Result (Unit {0}) × W

-- `Result::and_then`
infixl 5 ◌>>◌
abbrev pub ◌>>◌ : {W : Type 0} → Io W → Io W → Io W
◌>>◌ m k w = let (r, w') = m w in elim r [ ok _ ↦ k w' | err e ↦ (err e, w') ]
