-- ===== src/Server/Groups.antt =====
-- ParameterServer.cpp: where the groups of an `expose` message lead.
use rcp_flext.Prelude.{
  ◌≡◌, refl, Bool, true, ◌&&◌, Text, List, [], ◌∷◌, Option, none, some, Option-cases, inl, inr,
  arith, ◌∙◌,
}
use rcp_flext.Flext.{Flext}
use rcp_flext.Manager.{Manager}
use rcp_flext.Base.Lookup.{lookup_path}
use rcp_flext.Server.Expose.{ServerLib, get_as_string, enter_group, Place, create_groups}
use rcp_flext.Server.Library.{Keeps, IsServer, keeps_refl, keeps_trans}

module _ (fx : Flext) (m : Manager fx) (lib : ServerLib fx m) (laws : IsServer m lib) where
  open fx use {Atom, is_string, get_string}
  open m use {State, Param, find_parameter, is_group}

  abbrev pub all_strings : List Atom → Bool
  all_strings [] = true
  all_strings (a ∷ l) = is_string a && all_strings l

  -- No value parameter stands where a group is named.
  abbrev pub IsFree : State → List Atom → Option Param → Type 0
  IsFree st [] g = Unit
  IsFree st (a ∷ []) g = Unit
  IsFree st (a ∷ b ∷ l) g =
      (lib.find_group st (get_string a) g ≡ none → find_parameter st (get_string a) g ≡ none)
      × IsFree (enter_group fx m lib st (get_string a) g).0 (b ∷ l)
          (enter_group fx m lib st (get_string a) g).1

  -- The group of a name, once it is entered.
  record Entered (st : State) (n : Text) (g : Option Param) : Type 0 where
    group : Param
    is_entered : (enter_group fx m lib st n g).1 ≡ some group
    is_found : find_parameter (enter_group fx m lib st n g).0 n g ≡ some group
    is_a_group : is_group (enter_group fx m lib st n g).0 group ≡ true
    kept : Keeps m st (enter_group fx m lib st n g).0

  enter :
      (st : State) (n : Text) (g : Option Param)
      → (lib.find_group st n g ≡ none → find_parameter st n g ≡ none)
      → Entered st n g
  enter st n g free = elim (Option-cases (lib.find_group st n g)) [
    | inl e ↦
        let (q, made, found, is_one) = laws.create_group_made st n g (free e) in
        record {
          group = q;
          is_entered = rw (enter_group, e) made;
          is_found = rw (enter_group, e) found;
          is_a_group = rw (enter_group, e) is_one;
          kept = rw (enter_group, e) (laws.create_group_keeps st n g);
        }
    | inr (q, e) ↦
        let (found, is_one) = laws.find_group-found st n g q e in
        record {
          group = q;
          is_entered = rw (enter_group, e) refl;
          is_found = rw (enter_group, e) found;
          is_a_group = rw (enter_group, e) is_one;
          kept = rw (enter_group, e) (keeps_refl m st);
        }
  ]

  -- Where a path leads: the groups are entered, and a later state leads the same way.
  pub record Leads (st : State) (path : List Atom) (g : Option Param) : Type 0 where
    pub place : Place fx m lib
    pub is_entered : create_groups fx m lib st path g ≡ some place
    pub is_silent : place.outs ≡ []
    pub kept : Keeps m st place.state
    pub is_found :
        (st' : State) (p : Param) (param : Option Param)
        → Keeps m place.state st'
        → find_parameter st' place.label place.group ≡ some p
        → lookup_path fx m st' path param g ≡ some p
    pub again :
        (st' : State)
        → Keeps m place.state st'
        → create_groups fx m lib st' path g ≡ some (record place { state = st' })

  as_string : (a : Atom) → is_string a ≡ true → get_as_string fx m lib a ≡ get_string a
  unfolding get_as_string
  as_string a s = rw (get_as_string, s)

  create_groups-cons :
      (st : State) (a b : Atom) (l : List Atom) (g : Option Param)
      → is_string a ≡ true
      → create_groups fx m lib st (a ∷ b ∷ l) g
        ≡ create_groups fx m lib
            (enter_group fx m lib st (get_string a) g).0
            (b ∷ l)
            (enter_group fx m lib st (get_string a) g).1
  unfolding create_groups
  create_groups-cons st a b l g s = rw (create_groups, s, as_string a s)

  lookup_path-cons :
      (st : State) (a : Atom) (l : List Atom) (param g : Option Param) (q : Param)
      → is_string a ≡ true
      → find_parameter st (get_string a) g ≡ some q
      → is_group st q ≡ true
      → lookup_path fx m st (a ∷ l) param g ≡ lookup_path fx m st l (some q) (some q)
  unfolding lookup_path
  lookup_path-cons st a l param g q s e h = rw (lookup_path, s, e, h)

  lookup_path-last :
      (st : State) (a : Atom) (param g : Option Param) (p : Param)
      → is_string a ≡ true
      → find_parameter st (get_string a) g ≡ some p
      → lookup_path fx m st (a ∷ []) param g ≡ some p
  unfolding lookup_path
  lookup_path-last st a param g p s e = rw (lookup_path, s, e)

  lead_label : (st : State) (a : Atom) (g : Option Param) → is_string a ≡ true → Leads st (a ∷ []) g
  unfolding create_groups
  lead_label st a g s = record {
    place = record { state = st; group = g; label = get_as_string fx m lib a; outs = [] };
    is_entered = refl;
    is_silent = refl;
    kept = keeps_refl m st;
    is_found = λ st' p param k e. lookup_path-last st' a param g p s (rw (← as_string a s) e);
    again = λ st' k. refl;
  }

  lead_group :
      (st : State) (a b : Atom) (l : List Atom) (g : Option Param)
      → is_string a ≡ true
      → Entered st (get_string a) g
      → Leads
          (enter_group fx m lib st (get_string a) g).0
          (b ∷ l)
          (enter_group fx m lib st (get_string a) g).1
      → Leads st (a ∷ b ∷ l) g
  lead_group st a b l g s e rest = record {
    place = rest.place;
    is_entered = rw (create_groups-cons st a b l g s) rest.is_entered;
    is_silent = rest.is_silent;
    kept = keeps_trans m e.kept rest.kept;
    is_found = λ st' p param k h.
        let all = keeps_trans m rest.kept k in
        lookup_path-cons st' a (b ∷ l) param g e.group s
          (all.still_found (get_string a) g e.group e.is_found)
          (all.still_group e.group e.is_a_group)
        ∙ rw (← e.is_entered)
            (rest.is_found st' p (enter_group fx m lib st (get_string a) g).1 k h);
    again = λ st' k.
        let all = keeps_trans m rest.kept k in
        let h =
          laws.found-find_group st' (get_string a) g e.group
            (all.still_found (get_string a) g e.group e.is_found)
            (all.still_group e.group e.is_a_group) in
        create_groups-cons st' a b l g s
        ∙ rw (enter_group, h) (rw e.is_entered at rest.again st' k);
  }

  pub lead :
      (st : State) (a : Atom) (l : List Atom) (g : Option Param)
      → all_strings (a ∷ l) ≡ true
      → IsFree st (a ∷ l) g
      → Leads st (a ∷ l) g
  lead st a [] g strings free = lead_label st a g (ground arith)
  lead st a (b ∷ l) g strings free =
      lead_group st a b l g (ground arith) (enter st (get_string a) g free.0) (
        lead (enter_group fx m lib st (get_string a) g).0 b l
          (enter_group fx m lib st (get_string a) g).1 (ground arith) free.1)
