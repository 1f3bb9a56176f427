-- ===== src/Jobs.antt =====
-- homeKeeper/workFunctions.hpp: the three work functions. One round of an inner loop is a function
-- of the objects and of what the calls outside the program return; sleeping is left out.
pub mod GetIp
pub mod SendEmail
pub mod SendFile
pub mod Deliveries
pub mod History
pub mod Marks
pub mod MailedOnce
pub mod Writes
pub mod Both
pub mod Sessions
pub mod Openings
pub mod Retries
