-- ===== src/Tests/Tracker.antt =====
-- runtime/runtime-operation-tracker.js, on two operations of which one ends twice.
use tavern_mnemosyne.Prelude.{◌≡◌, refl, List, [], ◌∷◌}
use tavern_mnemosyne.Runtime.Tracker.{
  create, release, Call, begun, ended, calls, pending, calls-pending, release-release,
}

abbrev sequence : List Call
sequence = begun ∷ begun ∷ ended 0 ∷ ended 0 ∷ []

one_left : (calls sequence create).active_operation_count ≡ 1
unfolding calls
one_left = refl

calls-pending_example :
    (calls sequence create).active_operation_count ≡ pending (calls sequence create).released
calls-pending_example = calls-pending sequence

release-release_example :
    release 1 (release 1 (calls sequence create)) ≡ release 1 (calls sequence create)
release-release_example = release-release 1 (calls sequence create)
