-- ===== src/Base/Handled.antt =====
-- Each message of the table is handled, and what its handler leaves.
use rcp_flext.Prelude.{◌≡◌, refl, ◌≢◌, true, text, List, [], ◌∷◌, Option, none, some}
use rcp_flext.Flext.{Flext, Out}
use rcp_flext.Manager.{Manager}
use rcp_flext.Base.Input.{m_any}
use rcp_flext.Base.Query.{parameter_info, ask}
use rcp_flext.Base.Query.Answers.{parameter_id_lem, parameter_min_lem, parameter_value-ask}
use rcp_flext.Base.Closed.{Managed, Within}
use rcp_flext.Base.Within.{input_within, m_list_within}
use rcp_flext.Base.Readable.{
  ask_total, info_loop_total, output_info_total, said_value_total, limit_total, m_bang_total,
}
use rcp_flext.Base.Messages.{
  BaseMessage, info, id, type, readonly, order, value, min, max, list, anything, bang,
  has_arguments, asked, rounds_of, receive_base, IsReadable,
}

module _ (fx : Flext) (m : Manager fx) {R : m.State → m.State → Type 0}
    (managed : Managed m R) where
  open fx use {Atom}
  open m use {State, Param, find_parameter, type_id}
  open managed use {values}
  open values use {stays}

  asked_within :
      (st : State) (q : Option (List (Out Atom))) → q ≢ none → Within R st (asked fx m st q)
  asked_within st none h = absurd (h refl)
  asked_within st (some outs) h = stays st

  module _ (st : State) (readable : IsReadable m st) where
    open readable use {typed}

    answer_within :
        (argv : List Atom) (q : Option (List (Out Atom))) (f : Param → Option (List (Out Atom)))
        → q ≡ ask fx m st argv f
        → ((p : Param) → f p ≢ none)
        → Within R st (asked fx m st q)
    answer_within argv q f e h = asked_within st q (rw e (ask_total fx m st readable argv f h))

    info_within :
        (argv : List Atom)
        → Within R st (asked fx m st (parameter_info fx m st (rounds_of fx m st) argv))
    unfolding parameter_info
    info_within [] = asked_within st _ (info_loop_total fx m st readable (m.parameters st))
    info_within (a ∷ l) =
        answer_within (a ∷ l) _ _ refl (λ p. output_info_total fx m st readable p (a ∷ l))

    -- A message to the base class that has its arguments is handled without a read or write out
    -- of bounds, and what it leaves is related to what was there.
    pub receive_base_within :
        (msg : BaseMessage Atom) → has_arguments msg ≡ true → Within R st (receive_base fx m st msg)
    unfolding receive_base has_arguments m_any
    receive_base_within (info argv) h = info_within argv
    receive_base_within (id argv) h =
        answer_within argv _ _ (parameter_id_lem fx m st argv).0 (λ p e. cc)
    receive_base_within (type argv) h =
        answer_within argv _ _ (parameter_id_lem fx m st argv).1 (λ p e. cc)
    receive_base_within (readonly argv) h =
        answer_within argv _ _ (parameter_id_lem fx m st argv).2 (λ p e. cc)
    receive_base_within (order argv) h =
        answer_within argv _ _ (parameter_id_lem fx m st argv).3 (λ p e. cc)
    receive_base_within (value argv) h =
        answer_within argv _ _ (parameter_value-ask fx m st typed argv)
          (λ p. said_value_total fx m st readable p argv)
    receive_base_within (min argv) h =
        answer_within argv _ _ (parameter_min_lem fx m st argv).0
          (λ p. limit_total fx m st readable (m.has_min st p) (text "min") argv _)
    receive_base_within (max argv) h =
        answer_within argv _ _ (parameter_min_lem fx m st argv).1
          (λ p. limit_total fx m st readable (m.has_max st p) (text "max") argv _)
    receive_base_within (list []) h = cc
    receive_base_within (list (a ∷ [])) h = cc
    receive_base_within (list (a ∷ b ∷ l)) h = m_list_within fx m managed st a b l
    receive_base_within (anything t []) h = cc
    receive_base_within (anything t (a ∷ l)) h =
        input_within fx m managed st (find_parameter st t none) a l
    receive_base_within bang h = asked_within st _ (m_bang_total fx m st readable)
