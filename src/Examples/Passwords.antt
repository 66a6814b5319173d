-- ===== src/Examples/Passwords.antt =====
-- A new password, and the uses of an invitation.
use unified_account_center.Prelude.{none, [], ◌∷◌, arith}
use unified_account_center.Errors.{Result}
use unified_account_center.World.{World}
use unified_account_center.Exec
use unified_account_center.Model.Tenancy.{Invite}
use unified_account_center.Repo.Accounts
use unified_account_center.Repo.Tenancy.{consume_invite}
use unified_account_center.Repo.Tenancy.Uses.{Within, consume_invite-Within}
use unified_account_center.Service.Passwords.{change_password}
use unified_account_center.Examples.Setting.{small_env, small_world}

abbrev changed : Result (Unit {0}) × World
changed = change_password small_env "u1" "abcdefg1" small_world

abbrev last_use : Invite
last_use = record {
  code = "c1";
  tenant_id = "";
  client_id = "";
  email = "";
  phone = "";
  max_uses = 3;
  used_count = 2;
  expire_at = none;
  created_by = "u1";
  status = "active";
  note = "";
}

abbrev invited : World
invited = record small_world { invites = last_use ∷ [] }

consume_invite-Within_example : Within (consume_invite "c1" invited).1.invites
consume_invite-Within_example = consume_invite-Within "c1" invited (omega arith, tt)
