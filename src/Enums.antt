-- ===== src/Enums.antt =====
-- The enumerations of backend/app/models/enums.py that the modelled code uses, each with the
-- equality test of its members and, where the code stores or sends it, the member's value.
mod Roles
mod States
mod Markets
mod Jobs
unfoldable pub use Roles.*
unfoldable pub use States.*
unfoldable pub use Markets.*
unfoldable pub use Jobs.*
use employed.Base.{list_eq, nat_eq, option_eq, string_eq}
