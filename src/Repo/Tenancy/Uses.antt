-- ===== src/Repo/Tenancy/Uses.antt =====
-- The uses of an invitation.
use unified_account_center.Prelude.{
  ℕ, suc, ◌≤◌, String, ◌≡◌, refl, Bool, true, false, List, [], ◌∷◌, arith, if◌then◌else◌,
}
use unified_account_center.Prelude.Rows.{update_where}
use unified_account_center.World.{World}
use unified_account_center.Model.Tenancy.{Invite}
use unified_account_center.Exec.Inversion.{command_either}
use unified_account_center.Repo.Tenancy.{is_consumable, consume_invite}

-- No invitation has been used more often than it may be.
abbrev pub Within : List Invite → Type 0
Within [] = Unit {0}
Within (i ∷ is) = (i.used_count ≤ i.max_uses) × Within is

abbrev used_once : Invite → Invite
used_once i = record i { used_count = suc i.used_count }

consumed-Within :
    (code : String) (now : ℕ) (is : List Invite)
    → Within is
    → Within (update_where (is_consumable code now) used_once is)
unfolding update_where
consumed-Within code now [] h = tt
consumed-Within code now (i ∷ is) h =
    (row (is_consumable code now i) refl, consumed-Within code now is h.1)
  where
    row :
        (b : Bool)
        → is_consumable code now i ≡ b
        → (if b then used_once i else i).used_count ≤ (if b then used_once i else i).max_uses
    row true e = ground arith
    row false e = h.0

-- Consuming an invitation never brings a row past its maximal number of uses, also when the statement
-- fails.
pub consume_invite-Within :
    (code : String) (w : World) → Within w.invites → Within (consume_invite code w).1.invites
unfolding consume_invite
consume_invite-Within code w h =
    command_either _ w (λ v. Within v.invites) (λ fs. h)
      (λ fs. consumed-Within code w.now w.invites h)
