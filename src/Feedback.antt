-- ===== src/Feedback.antt =====
-- app/feedback_utils.py: the footer that ties a mail to its case.
pub mod Footer
mod RoundTrip
mod Examples
