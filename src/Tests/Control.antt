-- ===== src/Tests/Control.antt =====
-- A sign-out, the end of a vault, and the limits of the administration.
use blackglass_server.Base.{
  ◌≡◌, refl, true, false, none, some, List, [], ◌∷◌, ◌==◌, nat_eq, text_eq, Text, text, chains,
  text_beq,
}
use blackglass_server.Table.{select, delete, exists, find, sum_of}
use blackglass_server.Table.Keys.{IsKeyed}
use blackglass_server.Sessions.{
  is_token, auth_context, auth_context_hash, live_context, authorize_account_mutation,
}
use blackglass_server.Vaults.{delete_vault, retire_vault_identity}
use blackglass_server.Vaults.Deletion.{id_of, IsDeletion}
use blackglass_server.Limits.Admin.Counts.{IsLimited, after, fails, succeeds, register_at-IsLimited}
use blackglass_server.Live.{LiveEntry, register, cancel_user_vault, activity}
use blackglass_server.Live.Registry.{
  IsRegistry, IsEnded, stay, then_step, registers, acts, Steps-IsRegistry, of_share, who_of,
  cancellations_last,
}
use blackglass_server.Control.State.{
  ControlConfig, Env, ControlState, refused, not_logged_in, user_signout, vault_list,
}
use blackglass_server.Control.Dispatch.{authorized_control, authenticate, answer}
use blackglass_server.Control.Vaults.{handle_delete}
use blackglass_server.Sessions.Ended.{start}
use blackglass_server.Control.Safety.{refuses_unauthenticated, signed_out}
use blackglass_server.Control.Reach.{vault_deleted}
use blackglass_server.Tests.Data.{db, hash_1, repeat}

abbrev pub config : ControlConfig
config = record {
  session_ttl = 60;
  public_data_host = text "h";
  sharing_enabled = true;
  sharing_canary_owner_ids = [];
  invites = record {
    share_invites_global = 8;
    share_invites_per_source = 4;
    share_invites_per_user = 4;
    share_invite_targets_per_user = 4;
  };
}

abbrev pub env : Env
env = record {
  now = 5;
  now_again = 6;
  now_ms = 6;
  instant = 7;
  source = 1;
  fresh_id = text "v9";
  managed_password = text "p";
  managed_salt = text "s";
  hash_of = λ t. t;
  digest_of = λ t. 0;
  trim = λ t. t;
}

abbrev one_live : List LiveEntry
one_live = (register 4 (text "c1") 3 1 hash_1 (text "v1") (text "d") 0 []).1

abbrev state : ControlState
state = record { db = db; live = one_live; invite_attempts = []; events = [] }

-- A token of 64 digits that no session has.
abbrev stranger : Text
stranger = repeat 51 64

stranger_example :
    authorized_control config env (some stranger) vault_list state ≡ (refused not_logged_in, state)
unfolding live_context find text_beq
stranger_example = refuses_unauthenticated config env stranger vault_list state refl

abbrev left : ControlState
left = (authorized_control config env (some hash_1) user_signout state).1

signed_out_example :
    (authorized_control config (record env { now = 9 }) (some hash_1) vault_list left
      ≡ (refused not_logged_in, left))
    × IsEnded (λ _ _ h. h == hash_1) left.live
unfolding authorized_control authenticate answer auth_context auth_context_hash live_context
    is_token find exists text_beq
signed_out_example =
    signed_out config env (record env { now = 9 }) hash_1 vault_list state left left refl refl start

vaults_told_apart : IsKeyed id_of db.vaults
unfolding text_beq
vaults_told_apart = ((refl, tt), (tt, tt))

abbrev without_vault : ControlState
without_vault = (handle_delete config env 1 hash_1 (some (some (text "v1"))) state).1

vault_deleted_example :
    IsDeletion 1 (text "v1") db true without_vault.db
    × IsEnded (λ _ v _. v == text "v1") without_vault.live
    × (without_vault.events
        ≡ record { uid = 0; vault = text "v1"; notice = none; invalidated = true } ∷ [])
unfolding handle_delete delete_vault retire_vault_identity authorize_account_mutation exists find
    text_beq chains select delete sum_of
vault_deleted_example =
    vault_deleted config env 1 hash_1 (text "v1") state without_vault vaults_told_apart refl refl

live_example : IsRegistry 4 (activity (text "c1") 2 (text "live") 9 one_live)
unfolding register
live_example =
    Steps-IsRegistry 4 (λ _ _ _. false) (activity (text "c1") 2 (text "live") 9 one_live)
      (then_step
        (then_step (stay []) (registers (text "c1") 3 1 hash_1 (text "v1") (text "d") 0 tt refl))
        (acts (text "c1") 2 (text "live") 9))

cancellations_example :
    IsEnded
      (who_of (of_share 1 (text "v1")))
      (activity (text "c1") 2 (text "live") 9 (cancel_user_vault 1 (text "v1") one_live))
cancellations_example =
    cancellations_last 4 (of_share 1 (text "v1")) one_live
      (activity (text "c1") 2 (text "live") 9 (cancel_user_vault 1 (text "v1") one_live))
      (then_step (stay (cancel_user_vault 1 (text "v1") one_live))
        (acts (text "c1") 2 (text "live") 9))

admin_example : IsLimited 5 90 (after (fails 5 60 ∷ succeeds 6 ∷ fails 6 10 ∷ []))
admin_example = register_at-IsLimited (fails 5 60 ∷ succeeds 6 ∷ fails 6 10 ∷ []) 5 90
