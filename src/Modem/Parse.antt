-- ===== src/Modem/Parse.antt =====
-- What each command of src/xe310.cpp reads out of the body of an answer that said OK: the status that
-- it returns and the new value of its out parameter, given the old.
pub mod Info
pub mod Psm
pub mod Network
pub mod Registration
pub mod Bands
pub mod Operators
pub mod Data
pub mod Survey
pub mod NetworkSurvey
pub mod Cells
pub mod SurveyAnswer
