-- ===== src/Cobb.antt =====
-- The web interface, cobb/src/app: what its components compute from the answers of the services and
-- from the clicks of the user.
pub mod Letters
pub mod State
pub mod Stepper
pub mod Rows
pub mod Derived
pub mod Views
pub mod Page
pub mod Sums
pub mod Colors
pub mod Highlight
pub mod Details
pub mod Shown
pub mod Clicks
pub mod Charted
pub mod Artefacts
pub mod Stream
pub mod Errors
pub mod Insight
pub mod Months
pub mod NextMonth
pub mod Scores
pub mod Bars
pub mod Categories
pub mod Settled
pub mod Recent
pub mod Latest
pub mod Overview
pub mod Crumbs
pub mod Trail
pub mod Numbers
pub mod Forms
pub mod Repositories
pub mod Tables
pub mod Screens
pub mod Naming
pub mod Leaving
pub mod Access
pub mod Resolvers
pub mod Pages
pub mod Opened
mod Samples
mod Visits
mod Tests
