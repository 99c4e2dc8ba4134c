-- ===== src/Server/Library.antt =====
-- What the rcp library (a git submodule) promises of its server: what is found is found from then on,
-- until it is removed, and what is made is found.
use rcp_flext.Prelude.{◌≡◌, Bool, true, ℤ, Text, Option, none, some}
use rcp_flext.Flext.{Flext}
use rcp_flext.Rcp.{Datatype}
use rcp_flext.Manager.{Manager}
use rcp_flext.Base.Closed.{Values}
use rcp_flext.Server.Expose.{ServerLib}

-- A later state still finds what an earlier one found, and a group stays one.
pub record Keeps {fx : Flext} (m : Manager fx) (st st' : m.State) : Type 0 where
  pub still_found :
      (n : Text) (g : Option m.Param) (p : m.Param)
      → m.find_parameter st n g ≡ some p
      → m.find_parameter st' n g ≡ some p
  pub still_group : (p : m.Param) → m.is_group st p ≡ true → m.is_group st' p ≡ true

pub record IsServer {fx : Flext} (m : Manager fx) (lib : ServerLib fx m) : Type 0 where
  -- a group is found exactly if a parameter is found that is a group
  pub find_group-found :
      (st : m.State) (n : Text) (g : Option m.Param) (q : m.Param)
      → lib.find_group st n g ≡ some q
      → (m.find_parameter st n g ≡ some q) × (m.is_group st q ≡ true)
  pub found-find_group :
      (st : m.State) (n : Text) (g : Option m.Param) (q : m.Param)
      → m.find_parameter st n g ≡ some q
      → m.is_group st q ≡ true
      → lib.find_group st n g ≡ some q
  -- what is made, under a name that was free, is found
  pub create_group_made :
      (st : m.State) (n : Text) (g : Option m.Param)
      → m.find_parameter st n g ≡ none
      → (q : m.Param) × ((lib.create_group st n g).1 ≡ some q)
        × (m.find_parameter (lib.create_group st n g).0 n g ≡ some q)
        × (m.is_group (lib.create_group st n g).0 q ≡ true)
  pub expose_made :
      (st : m.State) (type : Datatype) (n : Text) (g : Option m.Param) (p : m.Param)
      → m.find_parameter st n g ≡ none
      → (lib.expose st type n g).1 ≡ some p
      → m.find_parameter (lib.expose st type n g).0 n g ≡ some p
  -- nothing that `exposeParameter` calls takes something away
  pub create_group_keeps :
      (st : m.State) (n : Text) (g : Option m.Param) → Keeps m st (lib.create_group st n g).0
  pub expose_keeps :
      (st : m.State) (type : Datatype) (n : Text) (g : Option m.Param)
      → Keeps m st (lib.expose st type n g).0
  pub update_keeps : (st : m.State) → Keeps m st (lib.update st)
  pub watch_keeps : (st : m.State) (p : m.Param) → Keeps m st (lib.watch st p)
  pub set_min_float_keeps :
      (st : m.State) (p : m.Param) (f : fx.Float) → Keeps m st (lib.set_min_float st p f)
  pub set_max_float_keeps :
      (st : m.State) (p : m.Param) (f : fx.Float) → Keeps m st (lib.set_max_float st p f)
  pub set_min_int32_keeps :
      (st : m.State) (p : m.Param) (i : ℤ) → Keeps m st (lib.set_min_int32 st p i)
  pub set_max_int32_keeps :
      (st : m.State) (p : m.Param) (i : ℤ) → Keeps m st (lib.set_max_int32 st p i)
  pub set_order_keeps : (st : m.State) (p : m.Param) (i : ℤ) → Keeps m st (lib.set_order st p i)
  pub set_readonly_keeps :
      (st : m.State) (p : m.Param) (b : Bool) → Keeps m st (lib.set_readonly st p b)
  pub set_value_bool_keeps :
      (st : m.State) (p : m.Param) (b : Bool) → Keeps m st (m.set_value_bool st p b)
  pub set_value_int32_keeps :
      (st : m.State) (p : m.Param) (i : ℤ) → Keeps m st (m.set_value_int32 st p i)
  pub set_value_float_keeps :
      (st : m.State) (p : m.Param) (f : fx.Float) → Keeps m st (m.set_value_float st p f)
  pub set_value_string_keeps :
      (st : m.State) (p : m.Param) (t : Text) → Keeps m st (m.set_value_string st p t)

-- A relation between the states that all that `exposeParameter` calls respects.
pub record Exposing {fx : Flext} (m : Manager fx) (lib : ServerLib fx m)
    (R : m.State → m.State → Type 0) : Type 0 where
  pub values : Values m R
  pub at_create_group :
      (st : m.State) (n : Text) (g : Option m.Param) → R st (lib.create_group st n g).0
  pub at_expose :
      (st : m.State) (type : Datatype) (n : Text) (g : Option m.Param)
      → R st (lib.expose st type n g).0
  pub at_update : (st : m.State) → R st (lib.update st)
  pub at_watch : (st : m.State) (p : m.Param) → R st (lib.watch st p)
  pub at_min_float : (st : m.State) (p : m.Param) (f : fx.Float) → R st (lib.set_min_float st p f)
  pub at_max_float : (st : m.State) (p : m.Param) (f : fx.Float) → R st (lib.set_max_float st p f)
  pub at_min_int32 : (st : m.State) (p : m.Param) (i : ℤ) → R st (lib.set_min_int32 st p i)
  pub at_max_int32 : (st : m.State) (p : m.Param) (i : ℤ) → R st (lib.set_max_int32 st p i)
  pub at_order : (st : m.State) (p : m.Param) (i : ℤ) → R st (lib.set_order st p i)
  pub at_readonly : (st : m.State) (p : m.Param) (b : Bool) → R st (lib.set_readonly st p b)

module _ {fx : Flext} (m : Manager fx) where
  pub keeps_refl : (st : m.State) → Keeps m st st
  keeps_refl st = record { still_found = λ n g p e. e; still_group = λ p e. e }

  pub keeps_trans : {st st' st'' : m.State} → Keeps m st st' → Keeps m st' st'' → Keeps m st st''
  keeps_trans h k = record {
    still_found = λ n g p e. k.still_found n g p (h.still_found n g p e);
    still_group = λ p e. k.still_group p (h.still_group p e);
  }

  pub Keeps-Exposing : (lib : ServerLib fx m) → IsServer m lib → Exposing m lib (Keeps m)
  Keeps-Exposing lib laws = record {
    values = record {
      stays = keeps_refl;
      joins = λ {st} {st'} {st''} h k. keeps_trans h k;
      at_bool = laws.set_value_bool_keeps;
      at_int32 = laws.set_value_int32_keeps;
      at_float = laws.set_value_float_keeps;
      at_string = laws.set_value_string_keeps;
    };
    at_create_group = laws.create_group_keeps;
    at_expose = laws.expose_keeps;
    at_update = laws.update_keeps;
    at_watch = laws.watch_keeps;
    at_min_float = laws.set_min_float_keeps;
    at_max_float = laws.set_max_float_keeps;
    at_min_int32 = laws.set_min_int32_keeps;
    at_max_int32 = laws.set_max_int32_keeps;
    at_order = laws.set_order_keeps;
    at_readonly = laws.set_readonly_keeps;
  }
