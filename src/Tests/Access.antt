-- ===== src/Tests/Access.antt =====
-- The theorems on users and what they may do.
use hackline.Prelude.{true, ◌≡◌, ◌↔◌, refl, [], ◌∷◌, none, some, ◌⊎◌}
use hackline.Prelude.Int.{pos}
use hackline.Prelude.Text.{Text, lit, text_eq}
use hackline.Prelude.Outcome.{ok, err}
use hackline.Gateway.Claim.{is_claimed, ensure_pending, consume}
use hackline.Gateway.Claim.Once.{consume_once}
use hackline.Gateway.Claim.Post.{claim_post, claim_post-consume}
use hackline.Gateway.Error
use hackline.Gateway.Error.{
  bad_request, no_pending_claim, not_found, unique, cannot_delete_self, unauthorized,
}
use hackline.Gateway.Schema.{Pending, User, Device, Db}
use hackline.Gateway.Devices
use hackline.Gateway.Audit
use hackline.Gateway.DeviceCalls.{create_device, delete_device}
use hackline.Gateway.DeviceCalls.Audited.{deletion, delete_device-audited}
use hackline.Gateway.Scope.{Scopes, check_device}
use hackline.Gateway.Scope.Roles.{IsStaff, Covers, check_device_iff}
use hackline.Gateway.Users.{
  get, update_token_hash, delete_in_org, insert, touch, authenticate, default_role, create,
}
use hackline.Gateway.UserCalls.{mint_token, delete_user}
use hackline.Gateway.UserCalls.Minted.{mint_token-authenticate}
use hackline.Gateway.Users.Access.{create-authenticate, create_default-unauthorized}
use hackline.Tests.Data.{owner, db}

-- The one scope that is JSON.
abbrev scopes : Scopes
scopes _ = some (some (some (pos 1) ∷ some (pos 3) ∷ []))

abbrev customer : User
customer = record owner { role = lit "customer"; device_scope = lit "[1,3]" }

check_device_iff_example : (check_device scopes customer 3 ≡ ok tt) ↔ (
    IsStaff (lit "customer") ⊎ ((lit "customer" ≡ lit "customer") × Covers scopes (lit "[1,3]") 3))
check_device_iff_example = check_device_iff scopes customer 3

-- A hash that tells the token from the owner's.
abbrev hash : Text → Text
hash t = b'#' ∷ t

abbrev made : User
made = record {
  id = 2;
  org_id = 1;
  name = lit "bob";
  role = default_role;
  device_scope = lit "*";
  tunnel_scope = lit "*";
  expires_at = none;
  created_at = pos 4;
  last_used_at = none;
}

abbrev db_made : Db
db_made = record db { users = record { user = made; token_hash = hash (lit "tok") } ∷ db.users }

create-ok :
    create hash db owner (lit "bob") default_role (lit "tok") (pos 4)
    ≡ ok ((made, lit "tok"), db_made)
unfolding create insert text_eq
create-ok = refl

create-authenticate_example :
    (owner.role ≡ lit "owner")
    × (made.org_id ≡ owner.org_id)
    × (made.role ≡ default_role)
    × (authenticate hash db_made (lit "tok") (pos 6) ≡ some (made, touch db_made 2 (pos 6)))
create-authenticate_example =
    create-authenticate hash db db_made owner made (lit "bob") default_role (lit "tok") (lit "tok")
      (pos 4) (pos 6) create-ok

create_default-unauthorized_once : check_device scopes made 1 ≡ err unauthorized
create_default-unauthorized_once =
    create_default-unauthorized hash scopes db db_made owner made (lit "bob") (lit "tok")
      (lit "tok") (pos 4) 1 create-ok

-- A gateway that waits for its first owner.
abbrev unclaimed : Db
unclaimed = record db {
  users = [];
  claim_pending = some (record { token_hash = hash (lit "claim"); created_at = pos 1 });
}

abbrev first_owner : User
first_owner = record made { id = 1; role = lit "owner" }

abbrev claimed : Db
claimed = record db {
  users = record { user = first_owner; token_hash = hash (lit "tok") } ∷ [];
  claim_pending = none;
}

claim-ok :
    consume hash unclaimed (lit "claim") (lit "bob") none (lit "tok") (pos 4)
    ≡ ok (lit "tok", claimed)
unfolding consume insert text_eq
claim-ok = refl

consume_once_example :
    ((p : Pending) × (unclaimed.claim_pending ≡ some p) × (p.token_hash ≡ hash (lit "claim")))
    × (is_claimed claimed ≡ true)
    × (ensure_pending hash claimed (lit "new") (pos 9) ≡ (none, claimed))
    × (consume hash claimed (lit "claim") (lit "eve") none (lit "new") (pos 9)
        ≡ err (bad_request no_pending_claim))
    × ((u : User) × (authenticate hash claimed (lit "tok") (pos 9)
          ≡ some (u, touch claimed u.id (pos 9)))
        × (u.role ≡ lit "owner"))
consume_once_example =
    consume_once hash unclaimed claimed (lit "claim") (lit "bob") (lit "tok") (lit "tok") none
      (pos 4) (lit "claim") (lit "eve") (lit "new") none (pos 9) claim-ok

abbrev minted : Db
minted = record db { users = record { user = owner; token_hash = hash (lit "new") } ∷ [] }

mint_token-ok : mint_token hash db owner 1 (lit "new") ≡ ok (lit "new", minted)
unfolding mint_token get update_token_hash text_eq
mint_token-ok = refl

mint_token-authenticate_example :
    ((owner.role ≡ lit "owner") ⊎ (owner.id ≡ 1))
    × ((target : User) × (get db 1 ≡ ok target)
        × (target.org_id ≡ owner.org_id)
        × (authenticate hash minted (lit "new") (pos 9)
            ≡ some (target, touch minted target.id (pos 9))))
mint_token-authenticate_example =
    mint_token-authenticate hash db minted owner 1 (lit "new") (lit "new") (pos 9) mint_token-ok

-- A user that is created by an owner may be deleted by it, and not by itself.
delete_user-run : (delete_user db_made owner 2).0 ≡ ok tt
unfolding delete_user delete_in_org text_eq
delete_user-run = refl

delete_self-run : (delete_user db_made owner 1).0 ≡ err (bad_request cannot_delete_self)
unfolding delete_user delete_in_org text_eq
delete_self-run = refl

abbrev without_device : Db
without_device = (delete_device (λ id zid. zid) db owner 1 (pos 9)).1

delete_device-ok : delete_device (λ id zid. zid) db owner 1 (pos 9) ≡ (ok tt, without_device)
unfolding delete_device Devices.get_in_org Devices.delete_in_org Audit.insert
delete_device-ok = refl

delete_device-audited_once :
    (device : Device) × (Devices.get_in_org db 1 1 ≡ ok device)
    × (Devices.get_in_org without_device 1 1 ≡ err not_found)
    × (without_device.audit
        ≡ deletion (Devices.cascade db 1).audit (pos 9) 1 device.zid ∷ (Devices.cascade db 1).audit)
delete_device-audited_once =
    delete_device-audited (λ id zid. zid) db without_device owner 1 (pos 9) delete_device-ok

-- The zid is taken already.
create_device-run :
    create_device (λ v. v.zid) db owner (lit "a1") (lit "again") (pos 9)
    ≡ (err (Error.db unique), db)
unfolding create_device Devices.insert Devices.insert_row Devices.get_in_org Audit.insert text_eq
create_device-run = refl

claim_post-consume_once :
    (u : User) × (slug : Text) × (claim_post hash unclaimed
        (lit "claim")
        (lit "bob")
        none
        (lit "tok")
        (pos 4)
      ≡ (ok (u.id, lit "tok", slug), claimed))
claim_post-consume_once =
    claim_post-consume hash unclaimed claimed (lit "claim") (lit "bob") (lit "tok") (lit "tok") none
      (pos 4) refl claim-ok
