-- ===== src/Server/Options.antt =====
-- ParameterServer.cpp: the options of an `expose` message.
use rcp_flext.Prelude.{
  ◌≡◌, refl, Bool, true, false, ◌&&◌, ℤ, pos, Text, text, text_eq, List, [], ◌∷◌, ◌++◌, Option,
  none, some, if◌then◌else◌, ◌==◌, negsuc, All, ◌^◌, ◌∙◌, ◌≤ℤ◌, ap,
}
use rcp_flext.Flext.{Flext, Out, error, IsFlext}

-- `t[0] == '@'` of a `std::string`
abbrev pub starts_with_at : Text → Bool
starts_with_at [] = false
starts_with_at (c ∷ t) = c == 64

-- The options with a value, the one without, and what else starts with '@'.
pub data Name : Type 0 where
  min max order readonly unknown : Name

abbrev pub name_of : Text → Name
name_of t =
    if text_eq t (text "@min")
    then min
    else (if text_eq t (text "@max")
        then max
        else (if text_eq t (text "@order")
            then order
            else (if text_eq t (text "@readonly") then readonly else unknown)))

module _ (fx : Flext) where
  open fx use {Atom, Float, is_string, get_string, can_be_int, can_be_float, get_a_int, get_a_float}

  -- The four `Optional`s; `errors` are the lines on the console.
  pub record Options : Type 0 where
    pub min : Option Float
    pub max : Option Float
    pub readonly : Option Bool
    pub order : Option ℤ
    pub errors : List (Out Atom)

  abbrev pub no_options : Options
  no_options = record { min = none; max = none; readonly = none; order = none; errors = [] }

  abbrev pub is_option : Atom → Bool
  is_option a = is_string a && starts_with_at (get_string a)

  abbrev failing : Options → Options
  failing o = record o { errors = o.errors ++ error ∷ [] }

  -- An option's value, taken from the atom behind its name.
  unfoldable pub set_option : Name → Atom → Options → Options
  set_option min a o = if can_be_float a then record o { min = some (get_a_float a) } else failing o
  set_option max a o = if can_be_float a then record o { max = some (get_a_float a) } else failing o
  set_option order a o =
      if can_be_int a then record o { order = some (get_a_int a (pos 0)) } else failing o
  set_option readonly a o = o
  set_option unknown a o = o

  -- The last atom can only be an option without a value.
  abbrev pub last_option : Name → Options → Options
  last_option readonly o = record o { readonly = some true }
  last_option _ o = o

  -- The loop of `exposeParameter`, from the third atom on.
  unfoldable pub option_loop : List Atom → Options → Options
  unfolding set_option
  option_loop [] o = o
  option_loop (a ∷ []) o = if is_option a then last_option (name_of (get_string a)) o else o
  option_loop (a ∷ b ∷ l) o = elim (is_option a) [
    | false ↦ option_loop (b ∷ l) o
    | true ↦ elim (name_of (get_string a)) [
      | min ↦ option_loop l (set_option min b o)
      | max ↦ option_loop l (set_option max b o)
      | order ↦ option_loop l (set_option order b o)
      | readonly ↦ option_loop (b ∷ l) (record o { readonly = some true })
      | unknown ↦ option_loop (b ∷ l) o
    ]
  ]

  -- The atoms before the first option.
  unfoldable pub arguments : List Atom → List Atom
  arguments [] = []
  arguments (a ∷ l) = if is_option a then [] else a ∷ arguments l

  -- What an `expose` message can ask for, and the atoms that ask for it.
  pub data Setting : Type 0 where
    min_to max_to : Float → Setting
    order_to : ℤ → Setting
    only_read : Setting

  abbrev pub written : Setting → List Atom
  written (min_to f) = fx.set_symbol (text "@min") ∷ fx.set_float f ∷ []
  written (max_to f) = fx.set_symbol (text "@max") ∷ fx.set_float f ∷ []
  written (order_to i) = fx.set_symbol (text "@order") ∷ fx.set_int i ∷ []
  written only_read = fx.set_symbol (text "@readonly") ∷ []

  abbrev pub all_written : List Setting → List Atom
  all_written [] = []
  all_written (x ∷ xs) = written x ++ all_written xs

  abbrev pub assign : Setting → Options → Options
  assign (min_to f) o = record o { min = some f }
  assign (max_to f) o = record o { max = some f }
  assign (order_to i) o = record o { order = some i }
  assign only_read o = record o { readonly = some true }

  abbrev pub assign_all : List Setting → Options → Options
  assign_all [] o = o
  assign_all (x ∷ xs) o = assign_all xs (assign x o)

  -- An order within what an atom keeps exactly.
  abbrev pub IsExact : Setting → Type 0
  IsExact (order_to i) = (negsuc (2 ^ 24) ≤ℤ i) × (i ≤ℤ pos (2 ^ 24))
  IsExact _ = Unit

  -- Documented of float atoms: the number is kept.
  pub record IsFloats : Type 0 where
    pub can_be_float-set_float : (f : Float) → can_be_float (fx.set_float f) ≡ true
    pub get_a_float-set_float : (f : Float) → get_a_float (fx.set_float f) ≡ f

  module _ (ok : IsFlext fx) (floats : IsFloats) where
    -- An option with a value takes two atoms, whatever follows.
    option_loop-value :
        (t : Text) (b : Atom) (l : List Atom) (o : Options)
        → starts_with_at t ≡ true
        → option_loop (fx.set_symbol t ∷ b ∷ l) o ≡ elim (name_of t) [
          | min ↦ option_loop l (set_option min b o)
          | max ↦ option_loop l (set_option max b o)
          | order ↦ option_loop l (set_option order b o)
          | readonly ↦ option_loop (b ∷ l) (record o { readonly = some true })
          | unknown ↦ option_loop (b ∷ l) o
        ]
    unfolding option_loop
    option_loop-value t b l o at =
        let branch : Name → Options = λ n. elim n [
          | min ↦ option_loop l (set_option min b o)
          | max ↦ option_loop l (set_option max b o)
          | order ↦ option_loop l (set_option order b o)
          | readonly ↦ option_loop (b ∷ l) (record o { readonly = some true })
          | unknown ↦ option_loop (b ∷ l) o
        ] in
        rw (option_loop, ok.is_string-set_symbol t, ok.get_string-set_symbol t, at)
          (ap (λ u. branch (name_of u)) (ok.get_string-set_symbol t))

    option_loop-readonly :
        (l : List Atom) (o : Options)
        → option_loop (fx.set_symbol (text "@readonly") ∷ l) o
          ≡ option_loop l (record o { readonly = some true })
    unfolding option_loop text text_eq
    option_loop-readonly [] o =
        rw (ok.is_string-set_symbol (text "@readonly"), ok.get_string-set_symbol (text "@readonly"))
    option_loop-readonly (b ∷ l) o = option_loop-value (text "@readonly") b l o refl

    -- Options that are written as `@min`, `@max` and `@order` with a value, or `@readonly`,
    -- in any number and order, are read as the assignments they stand for, the last one
    -- winning, and without a message. Given orders within 2^24, which an atom keeps, and the
    -- documented behaviour of flext's atoms.
    pub option_loop-written :
        (xs : List Setting) (o : Options)
        → All IsExact xs
        → option_loop (all_written xs) o ≡ assign_all xs o
    unfolding text text_eq option_loop
    option_loop-written [] o h = refl
    option_loop-written (min_to f ∷ xs) o h =
        option_loop-value (text "@min") (fx.set_float f) (all_written xs) o refl
        ∙ rw (set_option, floats.can_be_float-set_float f, floats.get_a_float-set_float f)
            (option_loop-written xs (assign (min_to f) o) h.1)
    option_loop-written (max_to f ∷ xs) o h =
        option_loop-value (text "@max") (fx.set_float f) (all_written xs) o refl
        ∙ rw (set_option, floats.can_be_float-set_float f, floats.get_a_float-set_float f)
            (option_loop-written xs (assign (max_to f) o) h.1)
    option_loop-written (order_to i ∷ xs) o h =
        option_loop-value (text "@order") (fx.set_int i) (all_written xs) o refl
        ∙ rw (set_option, ok.can_be_int-set_int i, ok.get_a_int-set_int i (pos 0) h.0.0 h.0.1)
            (option_loop-written xs (assign (order_to i) o) h.1)
    option_loop-written (only_read ∷ xs) o h =
        option_loop-readonly (all_written xs) o ∙ option_loop-written xs (assign only_read o) h.1
