-- ===== src/Access.antt =====
-- server/dukan/application/access.py: the guards that turn the policy's refusal into an error.
use dukan_pro.Prelude.{String, not, List, any}
use dukan_pro.Errors.{Checked, raise_if, permission_denied, Code}
use dukan_pro.Domain.Identity.{Permission, User, can}

unfoldable pub require_permission : User → Permission → String → Checked
require_permission actor permission branch_id =
    raise_if (not (can actor permission branch_id)) (permission_denied Code.access_denied)

unfoldable pub require_any_permission : User → List Permission → String → Checked
require_any_permission actor wanted branch_id =
    raise_if (not (any (λ p. can actor p branch_id) wanted)) (permission_denied Code.access_denied)
