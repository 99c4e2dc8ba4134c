-- ===== src/Base/Messages.antt =====
-- The messages of ParameterServerClientBase.cpp, as its constructor adds them: which method handles
-- which, and what the object is to the outside.
use rcp_flext.Prelude.{
  ℕ, suc, ◌≤◌, ◌≢◌, Bool, true, false, Text, List, [], ◌∷◌, Option, none, some, ◌>>=◌, length,
}
use rcp_flext.Flext.{Flext, Out}
use rcp_flext.Manager.{Manager, IsTree, IsTyped}
use rcp_flext.Base.Input.{m_list, m_any, m_bang}
use rcp_flext.Base.Query.{
  parameter_info, parameter_id, parameter_type, parameter_readonly, parameter_order,
  parameter_value, parameter_min, parameter_max,
}

-- A message to the inlet: a word of the table with its arguments, a list, any other word, a bang.
pub data BaseMessage (A : Type 0) : Type 0 where
  info id type readonly order value min max list : List A → BaseMessage A
  anything : Text → List A → BaseMessage A
  bang : BaseMessage A

-- A list has a target and a value at least, and any other word a value.
unfoldable pub has_arguments : {A : Type 0} → BaseMessage A → Bool
has_arguments (list []) = false
has_arguments (list (a ∷ [])) = false
has_arguments (anything t []) = false
has_arguments _ = true

module _ (fx : Flext) (m : Manager fx) where
  open fx use {Atom}
  open m use {State, parameters}

  -- A question leaves the library as it is.
  abbrev pub asked : State → Option (List (Out Atom)) → Option (State × List (Out Atom))
  asked st q = do outs ← q; some (st, outs)

  -- `getParents` has as many rounds as there are parameters, and one more.
  abbrev pub rounds_of : State → ℕ
  rounds_of st = suc (length (parameters st))

  unfoldable pub receive_base : State → BaseMessage Atom → Option (State × List (Out Atom))
  unfolding parameter_info parameter_id parameter_type parameter_readonly parameter_order
      parameter_value parameter_min parameter_max m_list m_any m_bang
  receive_base st (info argv) = asked st (parameter_info fx m st (rounds_of st) argv)
  receive_base st (id argv) = asked st (parameter_id fx m st argv)
  receive_base st (type argv) = asked st (parameter_type fx m st argv)
  receive_base st (readonly argv) = asked st (parameter_readonly fx m st argv)
  receive_base st (order argv) = asked st (parameter_order fx m st argv)
  receive_base st (value argv) = asked st (parameter_value fx m st argv)
  receive_base st (min argv) = asked st (parameter_min fx m st argv)
  receive_base st (max argv) = asked st (parameter_max fx m st argv)
  receive_base st (list argv) = m_list fx m st argv
  receive_base st (anything t argv) = m_any fx m st t argv
  receive_base st bang = asked st (m_bang fx m st)

-- The parameters form a tree that is no deeper than they are many, those of the four value types
-- are value parameters, and no text and no label is a null pointer.
pub record IsReadable {fx : Flext} (m : Manager fx) (st : m.State) : Type 0 where
  pub typed : IsTyped m st
  pub depth : m.Param → ℕ
  pub tree : IsTree m st depth
  pub shallow : (p : m.Param) → depth p ≤ length (m.parameters st)
  pub whole : (p : m.Param) → m.value_string st p ≢ none
  pub labelled : (p : m.Param) → m.label st p ≢ none
