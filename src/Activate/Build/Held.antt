-- ===== src/Activate/Build/Held.antt =====
-- The values that a manifest gives to identities: liveStatesFromManifest of
-- core/activate/builder.go.
use zsh_pro.Prelude.{
  ◌≡◌, refl, ap, ◌∙◌, Option, none, some, List, [], ◌∷◌, arith, ◌==◌, if◌then◌else◌,
}
use zsh_pro.Data.Bytes.{Bytes, bytes, bytes_eq}
use zsh_pro.Data.Dict.{Dict, lookup, insert, lookup-insert}
use zsh_pro.Data.LastWins.{last_of}
use zsh_pro.Live.Types.{LiveKind, Identity, identity_eq, LiveValue}
use zsh_pro.Live.Values.{scalar_live_value, list_live_value, option_live_value}
use zsh_pro.Model.Manifest.{Scalar, ListDelta, OptionSet, Manifest}
use zsh_pro.Activate.Build.Effective.{
  Values, manifest_values, scalar_values, alias_values, function_values, store_body, list_values,
  option_values, list_identity, identity,
}

-- The value of an element, if there is one.
abbrev or_value {ℓ} :
    {A : Type ℓ} → (A → LiveValue) → Option A → Option LiveValue → Option LiveValue
or_value f none o = o
or_value f (some a) o = some (f a)

abbrev pub env_key : Scalar → Identity
env_key s = identity LiveKind.env s.name

abbrev alias_key : Bytes × Bytes → Identity
alias_key a = identity LiveKind.alias a.0

abbrev function_key : Bytes × Bytes → Identity
function_key f = identity LiveKind.function f.0

abbrev pub list_key : ListDelta → Identity
list_key l = identity (if l.name == bytes "FPATH" then LiveKind.fpath else LiveKind.path) l.name

abbrev pub option_key : OptionSet → Identity
option_key o = identity LiveKind.option o.name

with_body : Bytes → Option Bytes → List (Bytes × Bytes) → List (Bytes × Bytes)
with_body n none fs = fs
with_body n (some body) fs = (n, body) ∷ fs

-- The functions that have a body.
with_bodies : Dict Bytes Bytes → List Bytes → List (Bytes × Bytes)
unfolding with_body
with_bodies bodies [] = []
with_bodies bodies (n ∷ ns) = with_body n (lookup n bodies) (with_bodies bodies ns)

-- The value of an identity: that of the last option, list, function with a body, alias or variable
-- of its name, whichever its kind tells.
unfoldable pub held : Manifest → Identity → Option LiveValue
unfolding with_bodies
held m i =
    or_value (λ o. option_live_value o.enabled) (last_of option_key i m.options)
      (or_value (λ l. list_live_value l.additions) (last_of list_key i m.lists)
        (or_value (λ f. scalar_live_value f.1)
          (last_of function_key i (with_bodies m.functions.bodies m.functions.added))
          (or_value (λ a. scalar_live_value a.1) (last_of alias_key i m.aliases.added)
            (or_value (λ s. scalar_live_value s.applied) (last_of env_key i m.env) none))))

module _ (i : Identity) where
  lookup-scalar_values :
      (ss : List Scalar) (vs : Values)
      → lookup i (scalar_values ss vs)
        ≡ or_value (λ s. scalar_live_value s.applied) (last_of env_key i ss) (lookup i vs)
  unfolding scalar_values last_of
  lookup-scalar_values [] vs = refl
  lookup-scalar_values (s ∷ ss) vs =
      lookup-scalar_values ss (insert (env_key s) (scalar_live_value s.applied) vs)
      ∙ ground (arith, lookup-insert (env_key s) i (scalar_live_value s.applied) vs)

  lookup-alias_values :
      (d : Dict Bytes Bytes) (vs : Values)
      → lookup i (alias_values d vs)
        ≡ or_value (λ a. scalar_live_value a.1) (last_of alias_key i d) (lookup i vs)
  unfolding alias_values last_of
  lookup-alias_values [] vs = refl
  lookup-alias_values ((n, body) ∷ d) vs =
      lookup-alias_values d (insert (identity LiveKind.alias n) (scalar_live_value body) vs)
      ∙ ground (arith, lookup-insert (identity LiveKind.alias n) i (scalar_live_value body) vs)

  lookup-list_values :
      (ls : List ListDelta) (vs : Values)
      → lookup i (list_values ls vs)
        ≡ or_value (λ l. list_live_value l.additions) (last_of list_key i ls) (lookup i vs)
  unfolding list_values list_identity last_of
  lookup-list_values [] vs = refl
  lookup-list_values (l ∷ ls) vs =
      lookup-list_values ls (insert (list_key l) (list_live_value l.additions) vs)
      ∙ ground (arith, lookup-insert (list_key l) i (list_live_value l.additions) vs)

  lookup-option_values :
      (os : List OptionSet) (vs : Values)
      → lookup i (option_values os vs)
        ≡ or_value (λ o. option_live_value o.enabled) (last_of option_key i os) (lookup i vs)
  unfolding option_values last_of
  lookup-option_values [] vs = refl
  lookup-option_values (o ∷ os) vs =
      lookup-option_values os (insert (option_key o) (option_live_value o.enabled) vs)
      ∙ ground (arith, lookup-insert (option_key o) i (option_live_value o.enabled) vs)

  lookup-store_body :
      (n : Bytes) (o : Option Bytes) (fs : List (Bytes × Bytes)) (vs : Values)
      → or_value
          (λ f. scalar_live_value f.1)
          (last_of function_key i fs)
          (lookup i (store_body n o vs))
        ≡ or_value
            (λ f. scalar_live_value f.1)
            (last_of function_key i (with_body n o fs))
            (lookup i vs)
  unfolding store_body with_body last_of
  lookup-store_body n none fs vs = refl
  lookup-store_body n (some body) fs vs =
      ground (arith, lookup-insert (identity LiveKind.function n) i (scalar_live_value body) vs)

  lookup-function_values :
      (bodies : Dict Bytes Bytes) (ns : List Bytes) (vs : Values)
      → lookup i (function_values bodies ns vs)
        ≡ or_value
            (λ f. scalar_live_value f.1)
            (last_of function_key i (with_bodies bodies ns))
            (lookup i vs)
  unfolding function_values with_bodies last_of
  lookup-function_values bodies [] vs = refl
  lookup-function_values bodies (n ∷ ns) vs =
      lookup-function_values bodies ns (store_body n (lookup n bodies) vs)
      ∙ lookup-store_body n (lookup n bodies) (with_bodies bodies ns) vs

  pub lookup-manifest_values : (m : Manifest) → lookup i (manifest_values m) ≡ held m i
  unfolding manifest_values held lookup
  lookup-manifest_values m =
      let env = scalar_values m.env [] in
      let aliases = alias_values m.aliases.added env in
      let functions = function_values m.functions.bodies m.functions.added aliases in
      lookup-option_values m.options (list_values m.lists functions)
      ∙ ap (or_value _ (last_of option_key i m.options)) (
          lookup-list_values m.lists functions
          ∙ ap (or_value _ (last_of list_key i m.lists)) (
              lookup-function_values m.functions.bodies m.functions.added aliases
              ∙ ap
                  (or_value _
                    (last_of function_key i (with_bodies m.functions.bodies m.functions.added)))
                  (lookup-alias_values m.aliases.added env
                    ∙ ap (or_value _ (last_of alias_key i m.aliases.added))
                        (lookup-scalar_values m.env []))))
