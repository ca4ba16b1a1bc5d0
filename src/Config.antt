-- ===== src/Config.antt =====
-- `perago/config.py`: the runtime configuration, read from the environment and a `.env` file.
pub mod Environment
pub mod Dotenv
pub mod Values
pub mod Sizes
pub mod WorkerIds
pub mod Services
pub mod Loading
pub mod Durations
pub mod Bounds
pub mod SizeBounds
pub mod Loaded
pub mod Lookup
pub mod Lines
pub mod RoundTrip
