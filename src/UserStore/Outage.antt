-- ===== src/UserStore/Outage.antt =====
-- FindByID where Redis fails.
use tikti.Base.{ok, Text, ◌≡◌, refl, ap, Bool, true, false, none, arith}
use tikti.Identity.{canonical_user_identity}
use tikti.UserStore.{Hash, Records, failed, get, find_in, first_found, find_by_id}

get-failed :
    (available : Bool) (id : Text) (h : Hash) → available ≡ false → get available id h ≡ failed
unfolding get
get-failed true id h down = cc
get-failed false id h down = refl

-- Where every command fails, FindByID of a canonical subject reports no error but an absent user.
pub find_by_id_outage :
    (db : Records) (id : Text)
    → db.available ≡ false
    → canonical_user_identity id ≡ true
    → find_by_id db id ≡ ok none
unfolding find_by_id find_in first_found
find_by_id_outage db id down canonical =
    let users = ap (find_in id) (get-failed db.available id db.users down) in
    let federated = ap (find_in id) (get-failed db.available id db.federated down) in
    ground (arith, canonical, users, federated)
