-- ===== src/Prelude/Answers.antt =====
-- What awaiting a call that may throw gives.
use Prim.Native.String.{String}

pub data Answer (A : Type 0) : Type 0 where
  answered : A → Answer A
  thrown : String → Answer A
