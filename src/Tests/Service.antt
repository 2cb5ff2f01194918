-- ===== src/Tests/Service.antt =====
-- The theorems on the service at the inputs of the module for shells.
use zsh_pro.Prelude.{◌≡◌, refl, true, false, ◌||◌, [], ◌∷◌, ltb, ok, contains, ◌==◌, ◌++◌, ◌>>◌}
use zsh_pro.Data.Bytes.{bytes, bytes_eq}
use zsh_pro.Data.Dict.{lookup, is_some}
use zsh_pro.Live.Types.{LiveKind, identity_eq}
use zsh_pro.Live.Values.{is_ok}
use zsh_pro.Live.Observed.{observed}
use zsh_pro.Worktree.State.{State, ShellState, PublishResult, PreparePullResult}
use zsh_pro.Worktree.State.Validate.{validate_state}
use zsh_pro.Worktree.State.Validate.Coherent.{AgreesWithHistory}
use zsh_pro.Worktree.Service.Transaction.{Step, stored, marshal_state, recovered}
use zsh_pro.Worktree.Service.Publish.{publish, changed_identities_after}
use zsh_pro.Worktree.Service.Publish.Replay.{publish-publish}
use zsh_pro.Worktree.Service.Publish.Effect.{publish-keeps}
use zsh_pro.Worktree.Service.Pull.{prepare_pull}
use zsh_pro.Worktree.Service.Calls.{Call, Reachable}
use zsh_pro.Worktree.Service.Calls.Valid.{Reachable-AgreesWithHistory}
use zsh_pro.Worktree.Service.Calls.Isolates.{ShellCall, ShellCall-isolates}
use zsh_pro.Worktree.Service.Recorded.{Holds}
use zsh_pro.Tests.Run.{run}
use zsh_pro.Tests.Samples.{editor}
use zsh_pro.Worktree.Service.Transaction.Laws.{noted}
use zsh_pro.Tests.Shells.{
  shell, outside, registry, worktree, publication, pull, credential, returned, result_or,
  repository,
}

abbrev published : Step PublishResult
published = publish outside registry publication false worktree

abbrev published_state : State
published_state = stored worktree published

abbrev no_publication : PublishResult
no_publication = record { shared_revision = 0; accepted = []; conflicts = [] }

abbrev publication_result : PublishResult
publication_result = result_or no_publication published

published_ok : is_ok published ≡ true
unfolding run
published_ok = refl

published_returns : published ≡ ok (published_state, publication_result)
published_returns = returned worktree no_publication published published_ok

-- The editor is lost to the other shell, and the alias is shared.
published_outcome :
    publication_result.accepted ≡ record { kind = LiveKind.alias; name = bytes "gs" } ∷ []
unfolding run
published_outcome = refl

publish-publish_example :
    (publish outside registry publication false published_state
      ≡ ok (published_state, publication_result))
    × (publish outside registry publication true published_state ≡ (
        marshal_state outside (recovered true published_state)
        >> ok (recovered true published_state, publication_result)))
publish-publish_example =
    publish-publish outside registry publication false worktree published_state publication_result
      published_returns

recovered_fits : marshal_state outside (recovered true published_state) ≡ ok tt
unfolding run
recovered_fits = refl

editor_changed :
    (ltb publication.acknowledged_revision worktree.compaction_floor
      || contains editor
          (changed_identities_after worktree.events publication.acknowledged_revision))
    ≡ true
unfolding run
editor_changed = refl

publish-keeps_example : observed editor published_state.shared ≡ observed editor worktree.shared
publish-keeps_example =
    publish-keeps outside registry publication false worktree published_state publication_result
      editor published_returns editor_changed

other : (credential.shell_id == bytes "two") ≡ false
unfolding run
other = refl

-- The same state with the record of a second shell, and the marker of a recovered write.
abbrev shared_by_two : State
shared_by_two = record worktree { shells = worktree.shells ++ (bytes "two", shell) ∷ [] }

abbrev published_marked : Step PublishResult
published_marked = publish outside registry publication true shared_by_two

marked_ok : is_ok published_marked ≡ true
unfolding run
marked_ok = refl

second_known : is_some (lookup (bytes "two") shared_by_two.shells) ≡ true
unfolding run
second_known = refl

ShellCall-isolates_example :
    ((s : ShellState) × Holds outside shared_by_two credential s)
    × (lookup (bytes "two") (stored shared_by_two published_marked).shells
        ≡ noted true (lookup (bytes "two") shared_by_two.shells))
ShellCall-isolates_example =
    ShellCall-isolates outside registry (bytes "two")
      (ShellCall.publishing publication
        (returned shared_by_two no_publication published_marked marked_ok))
      other

abbrev no_pull : PreparePullResult
no_pull = record { pending_revision = 0; token = []; changes = [] }

abbrev pulled : Step PreparePullResult
pulled = prepare_pull outside pull false worktree

abbrev pulled_state : State
pulled_state = stored worktree pulled

pulled_ok : is_ok pulled ≡ true
unfolding run
pulled_ok = refl

pulled_returns : pulled ≡ ok (pulled_state, result_or no_pull pulled)
pulled_returns = returned worktree no_pull pulled pulled_ok

worktree_valid : validate_state worktree ≡ ok tt
unfolding run
worktree_valid = refl

pulled_materialized : pulled_state.materialized ≡ true
unfolding run
pulled_materialized = refl

Reachable-AgreesWithHistory_example :
    (validate_state pulled_state ≡ ok tt) × AgreesWithHistory pulled_state
Reachable-AgreesWithHistory_example =
    Reachable-AgreesWithHistory outside repository (λ c d. true)
      (Reachable.call Reachable.start (Call.preparing false pull pulled_returns)) worktree_valid
      pulled_materialized
