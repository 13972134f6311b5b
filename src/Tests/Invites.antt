-- ===== src/Tests/Invites.antt =====
-- Two invitations of an account, and a third that its limit refuses.
use blackglass_server.Base.{ℕ, ◌≡◌, refl, true, false, List, [], Text, text, nat_eq, length}
use blackglass_server.Table.{select, count, exists}
use blackglass_server.Limits.Invites.{ShareInviteAttempt, InviteConfig, admit, pop_old, distinct}
use blackglass_server.Limits.Invites.Bounds.{IsLimited, Reachable, invites-IsLimited}

abbrev two_each : InviteConfig
two_each = record {
  share_invites_global = 10;
  share_invites_per_source = 5;
  share_invites_per_user = 2;
  share_invite_targets_per_user = 2;
}

abbrev digest_of : Text → ℕ
digest_of = length

abbrev once : List ShareInviteAttempt
once = (admit digest_of 7 1 (text "bob") two_each 100 []).1

abbrev twice : List ShareInviteAttempt
twice = (admit digest_of 7 1 (text "carol") two_each 200 once).1

invites_example : IsLimited two_each twice
invites_example = invites-IsLimited digest_of two_each twice (
    Reachable.invite 7 1 200 (text "carol")
      (Reachable.invite 7 1 100 (text "bob") (Reachable.start [] refl)))

third_is_refused : (admit digest_of 7 1 (text "bob") two_each 300 twice).0 ≡ false
unfolding admit pop_old distinct select count exists
third_is_refused = refl

an_hour_later : (admit digest_of 7 1 (text "bob") two_each 3600100 twice).0 ≡ true
unfolding admit pop_old distinct select count exists
an_hour_later = refl
