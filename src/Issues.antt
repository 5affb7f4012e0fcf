-- ===== src/Issues.antt =====
-- scripts/file_issues.py: the tickets of scripts/tickets.py, filed as issues on GitHub.
pub mod Paged
pub mod Tickets
pub mod Program
pub mod Rewriting
pub mod Filing
pub mod Data
pub mod Listings
