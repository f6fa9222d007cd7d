-- ===== src/RlePack.antt =====
-- The run-length packer of src/tools/pngprepare/rlepack.c. Table has the dynamic program and Output the
-- rest of `main`. Token says what the format is. Improve, Ends, Kinds and Best are about the table,
-- Codes and Writing about the file, Holding, Unpacking and Verifying about its verification, and Total about
-- the program as a whole.
pub mod Table
pub mod Output
pub mod Token
pub mod Improve
pub mod Ends
pub mod Kinds
pub mod Best
pub mod Codes
pub mod Writing
pub mod Holding
pub mod Unpacking
pub mod Verifying
pub mod Total
mod Tests
