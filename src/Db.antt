-- ===== src/Db.antt =====
-- The database (packages/database/prisma/schema.prisma) and the job queues, as the services of
-- apps/api use them.
mod Enums
mod Rows
mod Store
pub use Enums.*
pub use Rows.*
unfoldable pub use Store.*
