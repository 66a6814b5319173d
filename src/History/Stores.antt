-- ===== src/History/Stores.antt =====
-- No statement of the repositories or of the Redis client takes anything back.
mod Accounts
mod Redis
mod Tenancy
mod Tokens
pub use Accounts.*
pub use Redis.*
pub use Tenancy.*
pub use Tokens.*
use unified_account_center.History.Rules.{steady_rules}

pub ruleset steady_stores = (steady_rules, accounts_rules, redis_rules, tenancy_rules, tokens_rules)
