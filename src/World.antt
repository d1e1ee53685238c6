-- ===== src/World.antt =====
-- What the use cases act on: the tables of the database, the keys of Redis, the notifications
-- sent, and a count of the calls made to anything outside the program. What is not the
-- program's own code is the record `Env`: it is an argument of every operation.
mod State
mod Monad
mod Effects
mod Outside
mod Progress
unfoldable pub use State.*
unfoldable pub use Outside.*
unfoldable pub use Monad.*
unfoldable pub use Effects.*
unfoldable pub use Progress.*
