-- ===== src/App.antt =====
-- gestalt/main.py: how the program is put together, and what it serves. FastAPI and APScheduler are
-- libraries: a handler is an action on the services, a job is what is handed to the scheduler.
pub mod Token
pub mod Dsn
pub mod Access
pub mod Start
pub mod Starting
pub mod Handlers
pub mod Jobs
pub mod Plans
pub mod Visits
pub mod Cycle
pub mod Confinement
