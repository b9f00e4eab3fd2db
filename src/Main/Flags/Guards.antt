-- ===== src/Main/Flags/Guards.antt =====
-- What guards the control connection unless a flag says otherwise.
use tunnet_lite.Base.{
  String, Bool, true, false, ◌||◌, List, [], ◌∷◌, ◌++◌, Option, none, some, All, ◌==◌, ==_iff,
  string_eq, if◌then◌else◌, ◌≡◌, ◌⊎◌, inl, inr, refl, sym, ap, ◌∙◌,
}
use mathlib.Core.Path.{subst}
use tunnet_lite.Base.Int.{ℤ}
use tunnet_lite.Main.{CliOptions}
use tunnet_lite.Main.Flags.{
  Setting, to_string, to_bool, to_int, all_flags, assign, find_flag, set_all, register_all, initial,
  parse_cli,
}
use tunnet_lite.Main.Flags.Table.{
  Variable, string_var, bool_var, int_var, Flag, proxy_flags, wire_flags, control_flags,
}

-- Whether ECH is required, the mode of pinning, and the resolvers.
abbrev pub guards : CliOptions → Bool × String × String
guards o = (o.use_ech, o.pin_mode, o.doh_list)

-- The flags that set them.
unfoldable pub is_guard : String → Bool
is_guard name = name == "ech" || name == "pin-mode" || name == "doh"

-- A variable of another flag.
abbrev Keeps : Variable → Type 0
Keeps var = (s : Setting) (o : CliOptions) → guards (assign var s o) ≡ guards o

module _ (d : String) (set : String → CliOptions → CliOptions) where
  Keeps-string_var :
      ((x : String) (o : CliOptions) → guards (set x o) ≡ guards o) → Keeps (string_var set d)
  unfolding assign
  Keeps-string_var k (to_string x) o = k x o
  Keeps-string_var k (to_bool x) o = refl
  Keeps-string_var k (to_int x) o = refl

module _ (d : Bool) (set : Bool → CliOptions → CliOptions) where
  Keeps-bool_var :
      ((x : Bool) (o : CliOptions) → guards (set x o) ≡ guards o) → Keeps (bool_var set d)
  unfolding assign
  Keeps-bool_var k (to_string x) o = refl
  Keeps-bool_var k (to_bool x) o = k x o
  Keeps-bool_var k (to_int x) o = refl

module _ (d : ℤ) (set : ℤ → CliOptions → CliOptions) where
  Keeps-int_var : ((x : ℤ) (o : CliOptions) → guards (set x o) ≡ guards o) → Keeps (int_var set d)
  unfolding assign
  Keeps-int_var k (to_string x) o = refl
  Keeps-int_var k (to_bool x) o = refl
  Keeps-int_var k (to_int x) o = k x o

abbrev IsApart : Flag → Type 0
IsApart flag = (is_guard flag.name ≡ true) ⊎ Keeps flag.var

proxy_flags-IsApart : All IsApart proxy_flags
unfolding is_guard string_eq
proxy_flags-IsApart = (
  inr (Keeps-string_var _ _ (λ x o. refl)),
  (
    inr (Keeps-string_var _ _ (λ x o. refl)),
    (
      inr (Keeps-string_var _ _ (λ x o. refl)),
      (
        inr (Keeps-int_var _ _ (λ x o. refl)),
        (
          inr (Keeps-bool_var _ _ (λ x o. refl)),
          (
            inr (Keeps-string_var _ _ (λ x o. refl)),
            (
              inr (Keeps-string_var _ _ (λ x o. refl)),
              (
                inr (Keeps-string_var _ _ (λ x o. refl)),
                (
                  inr (Keeps-bool_var _ _ (λ x o. refl)),
                  (
                    inr (Keeps-string_var _ _ (λ x o. refl)),
                    (
                      inr (Keeps-string_var _ _ (λ x o. refl)),
                      (
                        inr (Keeps-bool_var _ _ (λ x o. refl)),
                        (
                          inr (Keeps-string_var _ _ (λ x o. refl)),
                          (
                            inr (Keeps-int_var _ _ (λ x o. refl)),
                            (inr (Keeps-int_var _ _ (λ x o. refl)), tt),
                          ),
                        ),
                      ),
                    ),
                  ),
                ),
              ),
            ),
          ),
        ),
      ),
    ),
  ),
)

wire_flags-IsApart : All IsApart wire_flags
unfolding is_guard string_eq
wire_flags-IsApart = (
  inr (Keeps-string_var _ _ (λ x o. refl)),
  (
    inr (Keeps-int_var _ _ (λ x o. refl)),
    (
      inr (Keeps-int_var _ _ (λ x o. refl)),
      (
        inr (Keeps-string_var _ _ (λ x o. refl)),
        (
          inr (Keeps-string_var _ _ (λ x o. refl)),
          (
            inr (Keeps-string_var _ _ (λ x o. refl)),
            (
              inr (Keeps-string_var _ _ (λ x o. refl)),
              (
                inr (Keeps-string_var _ _ (λ x o. refl)),
                (
                  inr (Keeps-string_var _ _ (λ x o. refl)),
                  (
                    inr (Keeps-bool_var _ _ (λ x o. refl)),
                    (inr (Keeps-bool_var _ _ (λ x o. refl)), tt),
                  ),
                ),
              ),
            ),
          ),
        ),
      ),
    ),
  ),
)

control_flags-IsApart : All IsApart control_flags
unfolding is_guard string_eq
control_flags-IsApart = (
  inr (Keeps-string_var _ _ (λ x o. refl)),
  (
    inr (Keeps-bool_var _ _ (λ x o. refl)),
    (
      inr (Keeps-bool_var _ _ (λ x o. refl)),
      (
        inr (Keeps-string_var _ _ (λ x o. refl)),
        (
          inr (Keeps-string_var _ _ (λ x o. refl)),
          (
            inl refl,
            (
              inl refl,
              (
                inl refl,
                (
                  inr (Keeps-string_var _ _ (λ x o. refl)),
                  (inr (Keeps-int_var _ _ (λ x o. refl)), tt),
                ),
              ),
            ),
          ),
        ),
      ),
    ),
  ),
)

All-append : (p q : List Flag) → All IsApart p → All IsApart q → All IsApart (p ++ q)
All-append [] q h k = k
All-append (x ∷ p) q h k = (h.0, All-append p q h.1 k)

all_flags-IsApart : All IsApart all_flags
all_flags-IsApart =
    All-append proxy_flags (wire_flags ++ control_flags) proxy_flags-IsApart
      (All-append wire_flags control_flags wire_flags-IsApart control_flags-IsApart)

-- A flag that is found under the name of none of the guards leaves them alone.
find_flag-Keeps :
    (flags : List Flag) (name : String) (var : Variable)
    → All IsApart flags
    → is_guard name ≡ false
    → find_flag flags name ≡ some var
    → Keeps var
unfolding find_flag
find_flag-Keeps [] name var h n e = cc
find_flag-Keeps (flag ∷ flags) name var h n e =
    chosen (flag.name == name) refl e (λ f. find_flag-Keeps flags name var h.1 n f)
  where
    apart : flag.name ≡ name → IsApart flag → Keeps flag.var
    apart k (inl g) = absurd (let f : true ≡ false = sym g ∙ ap is_guard k ∙ n in cc)
    apart k (inr keeps) = keeps

    chosen :
        (b : Bool)
        → (flag.name == name) ≡ b
        → (if b then some flag.var else find_flag flags name) ≡ some var
        → (find_flag flags name ≡ some var → Keeps var)
        → Keeps var
    chosen true k f ih =
        let same : flag.var ≡ var = cc in subst Keeps same (apart ((==_iff flag.name name).0 k) h.0)
    chosen false k f ih = ih f

set_all-guards :
    (settings : List (String × Setting)) (o : CliOptions)
    → All (λ q. is_guard q.0 ≡ false) settings
    → guards (set_all settings o) ≡ guards o
unfolding set_all
set_all-guards [] o h = refl
set_all-guards ((name, value) ∷ rest) o h =
    step (find_flag all_flags name) refl (λ v. set_all-guards rest v h.1)
  where
    step :
        (r : Option Variable)
        → find_flag all_flags name ≡ r
        → ((v : CliOptions) → guards (set_all rest v) ≡ guards v)
        → guards (elim r as (λ _. CliOptions) [
          | none ↦ set_all rest o
          | some var ↦ set_all rest (assign var value o)
        ])
          ≡ guards o
    step none e k = k o
    step (some var) e k =
        k (assign var value o) ∙ find_flag-Keeps all_flags name var all_flags-IsApart h.0 e value o

-- Where none of `-ech`, `-pin-mode` and `-doh` is given, whatever else is, the flags are registered
-- without a panic, and ECH is required, pins are kept from the first connection, and the resolvers
-- are the default ones.
pub parse_cli-guards :
    (settings : List (String × Setting))
    → All (λ q. is_guard q.0 ≡ false) settings
    → (o : CliOptions) × (parse_cli settings ≡ some o) × (guards o ≡ (true, "tofu", ""))
unfolding parse_cli register_all initial string_eq
parse_cli-guards settings h = (_, refl, set_all-guards settings _ h)
