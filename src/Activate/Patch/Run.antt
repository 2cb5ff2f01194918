-- ===== src/Activate/Patch/Run.antt =====
-- What the operations of a live patch are for: their effect on the values of a shell.
use zsh_pro.Prelude.{
  ◌≡◌, refl, ap, Bool, true, false, Option, none, some, [], ◌∷◌, arith, ◌==◌, ok, if◌then◌else◌,
  List, not,
}
use zsh_pro.Data.Bytes.{Bytes}
use zsh_pro.Worktree.Apply.{is_remove}
use zsh_pro.Worktree.Order.{supported}
use zsh_pro.Data.Dict.{is_some, Dict, lookup}
use zsh_pro.Live.Types.{LiveKind, Identity, identity_eq, LiveValue, LiveChange}
use zsh_pro.Live.Validate.{validate_live_value, elements, or_empty}
use zsh_pro.Live.Values.{
  clone_live_value, scalar_live_value, list_live_value, option_live_value, removed_live_value,
}
use zsh_pro.Worktree.Diff.{change_of}
use zsh_pro.Activate.Plan.{Op}
use zsh_pro.Activate.Patch.{change_op}

-- The values of the managed identities in a shell.
abbrev pub Shell : Type 0
Shell = Identity → Option LiveValue

abbrev pub write : Shell → Identity → Option LiveValue → Shell
write sh i v k = if i == k then v else sh k

unfoldable pub run_op : Op → Shell → Shell
run_op (Op.set_live_scalar i s) sh = write sh i (some (scalar_live_value s))
run_op (Op.remove_live_scalar i) sh = write sh i none
run_op (Op.transition_live_list i bp ap b a) sh =
    write sh i (if ap then some (list_live_value a) else none)
run_op (Op.set_live_option_state i b) sh = write sh i (some (option_live_value b))
run_op (Op.remove_live_option_state i) sh = write sh i none
run_op _ sh = sh  -- the operations of manifest plans, which a live patch does not hold

unfoldable pub run : List Op → Shell → Shell
run [] sh = sh
run (op ∷ ops) sh = run ops (run_op op sh)

-- What is known of a value that an identity of a kind is to have.
pub record IsFit (kind : LiveKind) (v : LiveValue) : Type 0 where
  pub valid : validate_live_value kind v ≡ ok tt
  pub present : v.present ≡ true
  pub canonical : clone_live_value v ≡ v

abbrev pub Fits : LiveKind → Option LiveValue → Type 0
Fits kind none = Unit {0}
Fits kind (some v) = IsFit kind v

abbrev or_false : Option Bool → Bool
or_false none = false
or_false (some b) = b

abbrev elements_of : Option LiveValue → List Bytes
elements_of none = []
elements_of (some v) = elements v.list

-- The operation that takes an identity from one value to another.
pub op_for : LiveKind → Identity → Option LiveValue → Option LiveValue → Op
op_for LiveKind.path k o p =
    Op.transition_live_list k (is_some o) (is_some p) (elements_of o) (elements_of p)
op_for LiveKind.fpath k o p =
    Op.transition_live_list k (is_some o) (is_some p) (elements_of o) (elements_of p)
op_for LiveKind.option k o none = Op.remove_live_option_state k
op_for LiveKind.option k o (some w) = Op.set_live_option_state k (or_false w.option)
op_for _ k o none = Op.remove_live_scalar k
op_for _ k o (some w) = Op.set_live_scalar k (or_empty w.scalar)

-- It writes the new value, and touches nothing else.
pub run_op-op_for :
    (kind : LiveKind) (k : Identity) (o p : Option LiveValue) (sh : Shell) (j : Identity)
    → Fits kind p
    → run_op (op_for kind k o p) sh j ≡ write sh k p j
unfolding run_op op_for scalar_live_value list_live_value option_live_value validate_live_value
    clone_live_value
run_op-op_for LiveKind.env k o none sh j f = refl
run_op-op_for kind k o none sh j f = refl
run_op-op_for kind k o (some w) sh j f = ground arith

-- What a recorded change carries.
abbrev pub new_value : Option LiveValue → LiveValue
new_value none = removed_live_value
new_value (some w) = clone_live_value w

pub change_of-some :
    (k : Identity) (o p : Option LiveValue) (c : LiveChange)
    → change_of k o p ≡ some c
    → (c.identity ≡ k) × (c.value ≡ new_value p) × (is_remove c.kind ≡ not (is_some p))
unfolding change_of
change_of-some k none none c h = ground arith
change_of-some k none (some w) c h = ground arith
change_of-some k (some v) none c h = ground arith
change_of-some k (some v) (some w) c h = ground arith

-- The planner's case distinction finds that operation.
pub change_op-op_for :
    (kind : LiveKind) (k : Identity) (b a : Dict Identity LiveValue) (p : Option LiveValue)
    (c : LiveChange)
    → lookup k a ≡ p
    → Fits kind p
    → c.identity ≡ k
    → c.value ≡ new_value p
    → is_remove c.kind ≡ not (is_some p)
    → supported kind ≡ true
    → change_op kind b a c ≡ ok (op_for kind k (lookup k b) p)
unfolding change_op op_for validate_live_value
change_op-op_for LiveKind.env k b a none c e f hi hv hr s = ground arith
change_op-op_for kind k b a none c e f hi hv hr s = ground arith
change_op-op_for kind k b a (some w) c e f hi hv hr s = ground arith
