-- ===== src/Wmt/Launcher.antt =====
-- wmt-launcher/main.c: the service that answers the kernel's commands.
pub mod Commands
pub mod Described
pub mod Outcomes
pub mod Names
pub mod Lists
pub mod Sources
pub mod Accepted
pub mod Replies
pub mod Power
pub mod Controls
pub mod Loop
pub mod Service
pub mod Workers
pub mod Allowed
pub mod Events
pub mod Stages
pub mod Carries
pub mod Releases
pub mod RoundEnds
pub mod Rounds
pub mod Ends
mod Tests
