-- ===== src/Base/Calls.antt =====
-- A call of code outside of the model: what it returned, or the text of the exception that it raised,
-- with the state of the world `E` that it left.
use Prim.Native.String.{String}

pub data Called (A E : Type 0) : Type 0 where
  returned : A → E → Called A E
  raised : String → E → Called A E

abbrev pub world_of : {A E : Type 0} → Called A E → E
world_of (returned _ e) = e
world_of (raised _ e) = e
